-- ===== src/Docs.antt =====
-- core/context/docs.py: which sections of the documents answer a query. The patterns of the
-- frontmatter and of the headings are parameters, as are the host's lower case and the files.
pub mod Ranking
use Prim.Native.Char.{code}
use ezsql.Base.{
  ℕ, ◌+◌, String, Bool, true, false, ◌&&◌, ◌||◌, not, Option, none, some, List, [], ◌∷◌, ◌++◌, map,
  is_nil, is_in, ltb, leb, nat_beq, length, take, ◌==◌, string_eq, if◌then◌else◌, text_append,
  text_length, text_take, text_le,
}
use ezsql.Base.Sorting.{sorted}

pub record DocSection : Type 0 where
  pub source : String
  pub title : String
  pub text : String
  pub score : ℕ

-- A document with its label.
pub record Doc : Type 0 where
  pub source : String
  pub content : String

-- A file of the project: its path from the root, its size, and its text, `none` where they cannot
-- be read.
pub record DocFile : Type 0 where
  pub rel : String
  pub size : Option ℕ
  pub text : Option String

abbrev pub bundled_doc_names : List String
bundled_doc_names = "optimizedsql.md" ∷ "securitysql.md" ∷ "explainsql.md" ∷ []

abbrev pub user_doc_dirs : List String
user_doc_dirs = "docs" ∷ ".ezsql/docs" ∷ []

-- A letter in lower case or an underscore, and a digit too.
abbrev pub begins_token : ℕ → Bool
begins_token c = leb b'a' c && leb c b'z' || nat_beq c b'_'

abbrev pub continues_token : ℕ → Bool
continues_token c = begins_token c || leb b'0' c && leb c b'9'

-- The part of a token that a text begins with, and what follows it.
unfoldable pub token_rest : String → String × String
token_rest String.[] = ("", "")
token_rest (String.◌∷◌ c s) =
    let (t, rest) = token_rest s in
    if continues_token (code c) then (String.◌∷◌ c t, rest) else ("", String.◌∷◌ c s)

-- The matches of the pattern; `inside` says that the character before is of a match.
unfoldable pub find_tokens : Bool → String → List String
unfolding token_rest
find_tokens inside String.[] = []
find_tokens inside (String.◌∷◌ c s) =
    let within = find_tokens true s in
    let outside = find_tokens false s in
    if inside && continues_token (code c)
    then within
    else if begins_token (code c)
    then String.◌∷◌ c (token_rest s).0 ∷ within
    else outside

-- What a document's text is split into: the keywords of its frontmatter, and its sections with
-- their titles.
pub record Patterns : Type 0 where
  pub lower : String → String
  pub keywords : String → String
  pub sections : String → List (String × String)

abbrev pub point : Bool → ℕ → ℕ
point true n = n
point false n = 0

-- `_bounded`
abbrev pub bounded : String → ℕ → String × Bool
bounded text max_chars =
    if leb (text_length text) max_chars then (text, false) else (text_take max_chars text, true)

-- The order of the results: by falling score, then source, then title.
abbrev pub section_le : DocSection → DocSection → Bool
section_le a b =
    if ltb b.score a.score
    then true
    else if ltb a.score b.score
    then false
    else if a.source == b.source
    then text_le a.title b.title
    else text_le a.source b.source

module _ (patterns : Patterns) where
  open patterns use {lower, keywords, sections}

  -- `_tokens`
  unfoldable pub tokens : String → List String
  unfolding find_tokens
  tokens text = find_tokens false (lower text)

  -- `_score_section`; the scores are whole numbers.
  unfoldable pub score_section : List String → String → String → String → ℕ
  unfolding tokens is_in
  score_section [] title text keywords_meta = 0
  score_section (qt ∷ query_tokens) title text keywords_meta =
      point (is_in qt (tokens title)) 3
      + point (is_in qt (tokens keywords_meta)) 2
      + point (is_in qt (tokens text)) 1
      + score_section query_tokens title text keywords_meta

  -- The sections of a document that score.
  unfoldable pub score_each :
      List String → ℕ → String → String → List (String × String) → List DocSection
  unfolding score_section
  score_each query_tokens max_chars source keywords_meta [] = []
  score_each query_tokens max_chars source keywords_meta ((title, text) ∷ rest) =
      let others = score_each query_tokens max_chars source keywords_meta rest in
      let score = score_section query_tokens title text keywords_meta in
      if leb score 0
      then others
      else record {
        source = source;
        title = title;
        text = (bounded text max_chars).0;
        score = score;
      }
        ∷ others

  -- The loop over the documents.
  unfoldable pub score_all : List String → ℕ → List Doc → List DocSection
  unfolding score_each
  score_all query_tokens max_chars [] = []
  score_all query_tokens max_chars (doc ∷ corpus) =
      score_each query_tokens max_chars doc.source (keywords doc.content) (sections doc.content)
      ++ score_all query_tokens max_chars corpus

  -- `_load_bundled`; `bundled` has the texts that can be read.
  unfoldable pub load_bundled : (String → Option String) → List String → List Doc
  unfolding text_append
  load_bundled bundled [] = []
  load_bundled bundled (name ∷ names) =
      let rest = load_bundled bundled names in
      elim (bundled name) [
        | none ↦ rest
        | some content ↦ record { source = text_append "bundled:" name; content = content } ∷ rest
      ]

  -- A file that is small enough and can be read.
  abbrev pub readable : ℕ → Option ℕ → Option String → Option String
  readable max_file_size none text = none
  readable max_file_size (some size) text = if ltb max_file_size size then none else text

  unfoldable pub load_files : ℕ → List DocFile → List Doc
  unfolding text_append
  load_files max_file_size [] = []
  load_files max_file_size (f ∷ files) =
      let rest = load_files max_file_size files in
      elim (readable max_file_size f.size f.text) [
        | none ↦ rest
        | some content ↦ record { source = text_append "user:" f.rel; content = content } ∷ rest
      ]

  -- `_load_user_docs`; `files` has the markdown files of a directory in order, none where it is no
  -- directory.
  unfoldable pub load_user_docs : ℕ → (String → List DocFile) → List String → List Doc
  unfolding load_files
  load_user_docs max_file_size files [] = []
  load_user_docs max_file_size files (dir ∷ dirs) =
      load_files max_file_size (files dir) ++ load_user_docs max_file_size files dirs

  -- `retrieve_docs`
  unfoldable pub retrieve_docs :
      String → (String → Option String) → (String → List DocFile) → ℕ → ℕ → ℕ → List DocSection
  unfolding load_bundled load_user_docs score_all tokens sorted
  retrieve_docs query bundled files max_file_size max_chars max_sections =
      if is_nil (tokens query)
      then []
      else take max_sections (
          sorted section_le (
            score_all (tokens query) max_chars (
              load_bundled bundled bundled_doc_names
              ++ load_user_docs max_file_size files user_doc_dirs)))
