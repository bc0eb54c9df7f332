-- ===== src/Tests/DocsTests.antt =====
-- Two documents, one of them with a heading that the query names.
use ezsql.Base.{
  String, Option, none, some, List, [], ◌∷◌, map, is_in, ◌==◌, string_eq, ◌≡◌, refl, if◌then◌else◌,
  text_append, text_le,
}
use ezsql.Base.Sorting.{sorted, insert_sorted}
use ezsql.Docs.{Patterns, DocFile, DocSection, tokens, find_tokens, token_rest, retrieve_docs}
use ezsql.Docs.Ranking.{IsRanking, retrieve_docs-IsRanking}

run : Unit {0}
unfolding retrieve_docs find_tokens token_rest tokens is_in text_append text_le sorted insert_sorted
run = tt

-- A document is one section, whose title is its text.
abbrev patterns : Patterns
patterns = record { lower = λ s. s; keywords = λ s. ""; sections = λ s. (s, s) ∷ [] }

abbrev bundled : String → Option String
bundled name = if name == "explainsql.md" then some "index scan" else none

abbrev files : String → List DocFile
files dir =
    if dir == "docs"
    then record { rel = "docs/a.md"; size = some 9; text = some "an index, an index_scan" }
      ∷ record { rel = "docs/b.md"; size = some 99; text = some "scan" }
      ∷ []
    else []

reads_tokens : tokens patterns "9ab-c_1" ≡ "ab" ∷ "c_1" ∷ []
unfolding run
reads_tokens = refl

abbrev shown : DocSection → String × String
shown s = (s.source, s.text)

ranks :
    map shown (retrieve_docs patterns "scan index" bundled files 50 5 2)
    ≡ ("bundled:explainsql.md", "index") ∷ ("user:docs/a.md", "an in") ∷ []
unfolding run
ranks = refl

retrieve_docs-IsRanking_example :
    IsRanking patterns 5 2 (retrieve_docs patterns "scan index" bundled files 50 5 2)
retrieve_docs-IsRanking_example = retrieve_docs-IsRanking patterns "scan index" bundled files 50 5 2
