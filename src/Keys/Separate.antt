-- ===== src/Keys/Separate.antt =====
-- What two inputs with one text have in common (cache/keys.py, `explain_key` and `schema_key`).
use ezsql.Base.{
  ℕ, String, false, Option, none, some, List, [], ◌∷◌, map, ◌≡◌, refl, sym, ap, ◌∙◌, text_le,
  has_char, has_char-text_of_nat, nat_of_text, nat_of_text-text_of_nat,
}
use ezsql.Base.Sorting.{sorted, insert_sorted}
use ezsql.Keys.{
  Part, part, text_join, part_le, serialized, number_or_empty, version_or_unknown, explain_parts,
  explain_options_fingerprint, version_one,
}
use ezsql.Keys.Decode.{decode, decode_lem}

has_no_bar : (n : Option ℕ) → has_char b'|' (number_or_empty n) ≡ false
unfolding has_char
has_no_bar none = refl
has_no_bar (some n) = has_char-text_of_nat b'|' refl n

-- The version is read back from its text.
number_of_text : (n : Option ℕ) → nat_of_text (number_or_empty n) ≡ n
unfolding nat_of_text
number_of_text none = refl
number_of_text (some n) = nat_of_text-text_of_nat n

module _ (digest : ℕ → String → String) (sqlglot : Option String) where
  -- The items in the order of their keys.
  abbrev in_order : String → String → String → Option ℕ → List Part
  in_order sql db_identity repo_ddl server_major =
      ("db_identity", db_identity)
      ∷ ("dialect", "postgres")
      ∷ ("domain", "explain")
      ∷ ("explain_options", explain_options_fingerprint)
      ∷ ("plan_model_version", version_one)
      ∷ ("repo_ddl", repo_ddl)
      ∷ ("server_major", number_or_empty server_major)
      ∷ ("sql_hash", digest 16 sql)
      ∷ ("sqlglot_version", version_or_unknown sqlglot)
      ∷ []

  sorted_lem :
      (sql db_identity repo_ddl : String) (server_major : Option ℕ)
      → sorted part_le (explain_parts digest sqlglot sql db_identity repo_ddl server_major)
        ≡ in_order sql db_identity repo_ddl server_major
  unfolding sorted insert_sorted text_le
  sorted_lem sql db_identity repo_ddl server_major = refl

  -- The texts that go into a key have no bar.
  abbrev pub IsBarFree : String → String → String → Type 0
  IsBarFree sql db_identity repo_ddl =
      (has_char b'|' (digest 16 sql) ≡ false)
      × (has_char b'|' db_identity ≡ false)
      × (has_char b'|' repo_ddl ≡ false)

  decoded :
      (sql db_identity repo_ddl : String) (server_major : Option ℕ)
      → has_char b'|' (version_or_unknown sqlglot) ≡ false
      → IsBarFree sql db_identity repo_ddl
      → decode (serialized (explain_parts digest sqlglot sql db_identity repo_ddl server_major))
        ≡ in_order sql db_identity repo_ddl server_major
  unfolding serialized has_char
  decoded sql db_identity repo_ddl server_major version h =
      ap (λ l. decode (text_join "|" (map part l)))
        (sorted_lem sql db_identity repo_ddl server_major)
      ∙ decode_lem ("db_identity", db_identity) _
          (
            (refl, h.1, refl),
            (
              (refl, refl, refl),
              (
                (refl, refl, refl),
                (
                  (refl, refl, refl),
                  (
                    (refl, refl, refl),
                    (
                      (refl, h.2, refl),
                      (
                        (refl, has_no_bar server_major, refl),
                        ((refl, h.0, refl), ((refl, version, refl), tt)),
                      ),
                    ),
                  ),
                ),
              ),
            ),
          )

  -- Two requests for a plan that have one text under their keys have the same digest of the query,
  -- the same identity of the database, the same schema and the same version of the server, where
  -- no text that goes into a key has a bar.
  pub explain_separates :
      (sql db_identity repo_ddl : String) (major : Option ℕ) (sql' db_identity' repo_ddl' : String)
      (major' : Option ℕ)
      → has_char b'|' (version_or_unknown sqlglot) ≡ false
      → IsBarFree sql db_identity repo_ddl
      → IsBarFree sql' db_identity' repo_ddl'
      → serialized (explain_parts digest sqlglot sql db_identity repo_ddl major)
        ≡ serialized (explain_parts digest sqlglot sql' db_identity' repo_ddl' major')
      → (digest 16 sql ≡ digest 16 sql')
        × (db_identity ≡ db_identity')
        × (repo_ddl ≡ repo_ddl')
        × (major ≡ major')
  explain_separates sql db repo major sql' db' repo' major' version h h' same =
      let items : in_order sql db repo major ≡ in_order sql' db' repo' major' =
        sym (decoded sql db repo major version h)
        ∙ ap decode same
        ∙ decoded sql' db' repo' major' version h' in
      (
        cc items,
        cc items,
        cc items,
        sym (number_of_text major) ∙ ap nat_of_text (cc items) ∙ number_of_text major',
      )
