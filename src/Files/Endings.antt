-- ===== src/Files/Endings.antt =====
-- The line endings of a file.
use ast_serialize.Common.{
  ℕ, ◌≡◌, refl, ap, ◌∙◌, Bool, false, List, [], Option, none, some, ◌>>=◌, Text,
}
use ast_serialize.Options.{Options}
use ast_serialize.CommentLines.{Extracted, extract_type_comments_and_ignores}
use ast_serialize.Newlines.{universal_newlines}
use ast_serialize.Newlines.RoundTrip.{has_cr, to_crlf, universal_newlines-to_crlf}
use ast_serialize.Files.{
  Output, FileResult, not_read, panicked, serialized, result_of, file_context, top_unreachable,
  serialize_tree, output_of, serialize_commented, serialize_text, serialize_source,
  serialize_python_file,
}
use ast_serialize.Files.Inputs.{Crates, FilePath, Parsed}

-- The result but for the hash of the source.
abbrev pub unhashed : FileResult → FileResult
unhashed not_read = not_read
unhashed panicked = panicked
unhashed (serialized output) = serialized (record output { source_hash = [] })

unhashed-last :
    {A : Type 0} (x : Option A) (f g : A → Output)
    → ((a : A) → unhashed (serialized (f a)) ≡ unhashed (serialized (g a)))
    → unhashed (result_of (do a ← x; some (f a))) ≡ unhashed (result_of (do a ← x; some (g a)))
unhashed-last none f g k = refl
unhashed-last (some a) f g k = k a

unhashed-serialize_commented :
    (crates : Crates) (file : FilePath) (h h' : Text) (text : List ℕ) (parsed : Parsed)
    (comments : Extracted) (skip : Bool) (options : Options)
    → unhashed (result_of (serialize_commented crates file h text parsed comments skip options))
      ≡ unhashed (result_of (serialize_commented crates file h' text parsed comments skip options))
unfolding serialize_commented output_of
unhashed-serialize_commented crates file h h' text parsed comments skip options =
    unhashed-last
      (serialize_tree (file_context crates text parsed comments skip options)
        (top_unreachable crates text parsed comments) parsed.body)
      (output_of crates file h text parsed comments) (output_of crates file h' text parsed comments)
      (λ written. refl)

unhashed-serialize_source :
    (crates : Crates) (file : FilePath) (raw raw' : List ℕ) (skip : Bool) (options : Options)
    → universal_newlines raw ≡ universal_newlines raw'
    → unhashed (serialize_source crates file (some raw) skip options)
      ≡ unhashed (serialize_source crates file (some raw') skip options)
unfolding serialize_source serialize_text
unhashed-serialize_source crates file raw raw' skip options p =
    ap (λ t. unhashed (result_of (serialize_text crates file (crates.digest raw) t skip options))) p
    ∙ unhashed-serialize_commented crates file (crates.digest raw) (crates.digest raw')
        (universal_newlines raw') (crates.parse file (universal_newlines raw'))
        (extract_type_comments_and_ignores crates.library options
          (crates.parse file (universal_newlines raw')).comments)
        skip options

-- Where a source text has no "\r", the result for it is that for the text with "\r\n" for each "\n",
-- but for the hash: the same bytes, errors, comments and imports, or the same panic.
pub serialize_python_file-to_crlf :
    (crates : Crates) (file : FilePath) (t : List ℕ) (skip : Bool) (options : Options)
    → has_cr t ≡ false
    → unhashed (serialize_python_file crates file (some (to_crlf t)) skip options)
      ≡ unhashed (serialize_python_file crates file (some t) skip options)
unfolding serialize_python_file universal_newlines
serialize_python_file-to_crlf crates file t skip options h =
    unhashed-serialize_source crates file (to_crlf t) t skip options
      (universal_newlines-to_crlf t h ∙ rw h refl)
