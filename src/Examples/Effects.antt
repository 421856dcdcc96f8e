-- ===== src/Examples/Effects.antt =====
-- A method body that assigns to an attribute of `self`.
use ast_serialize.Common.{◌≡◌, refl, true, ◌||◌, any}
use ast_serialize.Effects.Body.{is_trivial_body, first_param_name, has_externally_visible_effect}
use ast_serialize.Effects.Visible.{visible_body, is_effect}
use ast_serialize.Effects.Correct.{has_externally_visible_effect_iff}
use ast_serialize.Examples.Data.{self_parameters, method_body}

method_body-has_effect : has_externally_visible_effect method_body self_parameters true ≡ true
unfolding has_externally_visible_effect
method_body-has_effect = refl

has_externally_visible_effect_iff_example :
    has_externally_visible_effect method_body self_parameters true ≡ (
      is_trivial_body method_body
      || any (is_effect (first_param_name self_parameters true)) (visible_body method_body))
has_externally_visible_effect_iff_example =
    has_externally_visible_effect_iff method_body self_parameters true
