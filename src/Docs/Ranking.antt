-- ===== src/Docs/Ranking.antt =====
-- What a retrieval of documents gives (core/context/docs.py).
use ezsql.Base.{
  ℕ, ◌≤◌, ◌<◌, String, true, false, Option, List, [], ◌∷◌, ◌++◌, is_nil, leb, length, length-take,
  string_eq, if_lem, text_length, length-text_take-le, text_le_total, ◌≡◌, inl, inr, Bool-cases,
  arith, All, All-append, All-take,
}
use ezsql.Base.Sorting.{sorted, IsSorted, sorted-IsSorted, All-sorted, IsSorted-take}
use ezsql.Docs.{
  DocSection, Doc, DocFile, Patterns, bounded, section_le, tokens, score_section, score_each,
  score_all, load_bundled, load_user_docs, bundled_doc_names, user_doc_dirs, retrieve_docs,
}

section_le_total : (a b : DocSection) → section_le a b ≡ false → section_le b a ≡ true
section_le_total a b h = ground (
  arith,
  h,
  text_le_total a.source b.source,
  text_le_total a.title b.title,
  string_eq.decides a.source b.source,
  string_eq.decides b.source a.source,
)

bounded_lem : (text : String) (max_chars : ℕ) → text_length (bounded text max_chars).0 ≤ max_chars
bounded_lem text max_chars = elim (Bool-cases (leb (text_length text) max_chars)) [
  | inl short ↦ rw short (ground (arith, short))
  | inr long ↦ rw long (length-text_take-le max_chars text)
]

-- A section that scores, with a text of bounded length.
abbrev pub IsHit : ℕ → DocSection → Type 0
IsHit max_chars s = (0 < s.score) × (text_length s.text ≤ max_chars)

module _ (patterns : Patterns) where
  each-IsHit :
      (query_tokens : List String) (max_chars : ℕ) (source keywords_meta : String)
      (l : List (String × String))
      → All (IsHit max_chars) (score_each patterns query_tokens max_chars source keywords_meta l)
  unfolding score_each
  each-IsHit query_tokens max_chars source keywords_meta [] = tt
  each-IsHit query_tokens max_chars source keywords_meta ((title, text) ∷ l) =
      let score = score_section patterns query_tokens title text keywords_meta in
      let rest = each-IsHit query_tokens max_chars source keywords_meta l in
      elim (Bool-cases (leb score 0)) [
        | inl none_hit ↦ rw none_hit rest
        | inr hit ↦ rw hit ((ground (arith, hit), bounded_lem text max_chars), rest)
      ]

  all-IsHit :
      (query_tokens : List String) (max_chars : ℕ) (corpus : List Doc)
      → All (IsHit max_chars) (score_all patterns query_tokens max_chars corpus)
  unfolding score_all
  all-IsHit query_tokens max_chars [] = tt
  all-IsHit query_tokens max_chars (doc ∷ corpus) =
      All-append (IsHit max_chars)
        (score_each patterns query_tokens max_chars doc.source (patterns.keywords doc.content)
          (patterns.sections doc.content))
        (score_all patterns query_tokens max_chars corpus)
        (each-IsHit query_tokens max_chars doc.source (patterns.keywords doc.content)
          (patterns.sections doc.content))
        (all-IsHit query_tokens max_chars corpus)

  abbrev pub IsRanking : ℕ → ℕ → List DocSection → Type 0
  IsRanking max_chars max_sections l =
      (length l ≤ max_sections) × All (IsHit max_chars) l × IsSorted section_le l

  -- A retrieval gives at most `max_sections` sections, each of which scores and has a text of at
  -- most `max_chars` characters, in the order of falling scores, then of sources and titles.
  pub retrieve_docs-IsRanking :
      (query : String) (bundled : String → Option String) (files : String → List DocFile)
      (max_file_size max_chars max_sections : ℕ)
      → IsRanking max_chars max_sections
          (retrieve_docs patterns query bundled files max_file_size max_chars max_sections)
  unfolding retrieve_docs
  retrieve_docs-IsRanking query bundled files max_file_size max_chars max_sections =
      let corpus =
        load_bundled patterns bundled bundled_doc_names
        ++ load_user_docs patterns max_file_size files user_doc_dirs in
      let scored = score_all patterns (tokens patterns query) max_chars corpus in
      let ranked = sorted section_le scored in
      if_lem (IsRanking max_chars max_sections) (is_nil (tokens patterns query))
        (omega arith, tt, tt)
        (
          omega (arith, length-take max_sections ranked),
          All-take (IsHit max_chars) max_sections ranked (
              All-sorted section_le (IsHit max_chars) scored
                (all-IsHit (tokens patterns query) max_chars corpus)),
          IsSorted-take section_le max_sections ranked
              (sorted-IsSorted section_le section_le_total scored),
        )
