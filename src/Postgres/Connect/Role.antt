-- ===== src/Postgres/Connect/Role.antt =====
-- Which roles the preflight lets pass (db/postgres.py, `_preflight_role` and `_verify_version`).
use ezsql.Base.{
  ◌+◌, ◌≤◌, String, Bool, true, false, not, Option, none, some, List, [], ◌∷◌, length, leb, ◌≡◌,
  ◌↔◌, refl, arith, All, ap, ◌∙◌,
}
use ezsql.Base.Int.{ℤ, ltb_ℤ}
use ezsql.Postgres.Errors.{
  DbAdapterError, Outcome, returns, ◌>>=◌, attempt, demand, Ensures, Ensures-bind, Ensures-demand,
  Ensures-map, Ensures-attempt, Ensures-elim,
}
use ezsql.Postgres.Connect.{
  RoleFlags, Connection, min_server_major, max_role_memberships, max_role_relations, system_schemas,
  found_flags, check_schemas, no_writable, preflight_role, checked_major, verify_version,
  before_dot, text_or,
}

abbrev pub IsPlain : RoleFlags → Type 0
IsPlain f =
    (f.rolsuper ≡ false)
    × (f.rolbypassrls ≡ false)
    × (f.rolcreaterole ≡ false)
    × (f.rolcreatedb ≡ false)

-- Each question has been answered, and the answer is that the role can change nothing.
pub record IsSafeRole (conn : Connection) (role : String) : Type 0 where
  pub flags : RoleFlags
  pub row : conn.role_flags ≡ some (some flags)
  pub plain : IsPlain flags
  pub temp : conn.has_temp ≡ some false
  pub create : conn.has_create ≡ some false
  pub schemas : List String
  pub path : conn.search_path ≡ some schemas
  pub closed : All (λ s. conn.creates_in role s ≡ some false) schemas
  pub groups : List String
  pub members : conn.memberships ≡ some groups
  pub few : length groups ≤ max_role_memberships
  pub nothing : conn.writable system_schemas (max_role_relations + 1) ≡ some []

no_is_false : (b : Bool) → not b ≡ true → b ≡ false
no_is_false true h = absurd (cc h)
no_is_false false h = refl

answered_no : (o : Option Bool) {b : Bool} → o ≡ some b → not b ≡ true → o ≡ some false
answered_no o {b} e h = e ∙ ap (λ x. some x) (no_is_false b h)

schemas-Ensures :
    (conn : Connection) (role : String) (schemas : List String)
    → Ensures
        (check_schemas conn role schemas)
        (λ x. All (λ s. conn.creates_in role s ≡ some false) schemas)
unfolding check_schemas
schemas-Ensures conn role [] = tt
schemas-Ensures conn role (s ∷ schemas) =
    let Q = λ (x : Unit {0}). All (λ s. conn.creates_in role s ≡ some false) (s ∷ schemas) in
    Ensures-bind (attempt (conn.creates_in role s)) _ (λ b. conn.creates_in role s ≡ some b) Q
      (Ensures-attempt (conn.creates_in role s))
      λ creates answered.
        Ensures-bind (demand (not creates) _) _ (λ x. not creates ≡ true) Q
          (Ensures-demand (not creates) _)
          λ x safe.
            Ensures-map (check_schemas conn role schemas)
              (λ x. All (λ s. conn.creates_in role s ≡ some false) schemas) Q
              (λ x rest. (answered_no (conn.creates_in role s) answered safe, rest))
              (schemas-Ensures conn role schemas)

flags-Ensures : (row : Option RoleFlags) → Ensures (found_flags row) (λ f. row ≡ some f)
flags-Ensures none = tt
flags-Ensures (some f) = refl

writable-Ensures : (rows : List (String × String)) → Ensures (no_writable rows) (λ x. rows ≡ [])
writable-Ensures [] = refl
writable-Ensures (r ∷ rows) = tt

schemas-pass :
    (conn : Connection) (role : String) (schemas : List String)
    → All (λ s. conn.creates_in role s ≡ some false) schemas
    → check_schemas conn role schemas ≡ returns tt
unfolding check_schemas
schemas-pass conn role [] h = refl
schemas-pass conn role (s ∷ schemas) h =
    rw (check_schemas, h.0, schemas-pass conn role schemas h.1) refl

module _ (conn : Connection) (role : String) where
  abbrev Safe : Unit {0} → Type 0
  Safe x = IsSafeRole conn role

  -- A demand for a negation.
  need :
      (b : Bool) (e : DbAdapterError) (rest : Unit {0} → Outcome (Unit {0}))
      → ((b ≡ false) → Ensures (rest tt) Safe)
      → Ensures (demand (not b) e >>= rest) Safe
  need true e rest h = tt
  need false e rest h = h refl

  ask :
      {A : Type 0} (o : Option A) (rest : A → Outcome (Unit {0}))
      → ((a : A) → o ≡ some a → Ensures (rest a) Safe)
      → Ensures (attempt o >>= rest) Safe
  ask none rest h = tt
  ask (some a) rest h = h a refl

  preflight-Ensures : Ensures (preflight_role conn role) Safe
  unfolding preflight_role
  preflight-Ensures = ask conn.role_flags _ λ row is_row.
      Ensures-bind (found_flags row) _ (λ f. row ≡ some f) Safe (flags-Ensures row)
        λ flags found. need flags.rolsuper _ _ λ a. need flags.rolbypassrls _ _ λ b.
          need flags.rolcreaterole _ _ λ c. need flags.rolcreatedb _ _ λ d.
            ask conn.has_temp _ λ temp is_temp. need temp _ _ λ e.
              ask conn.has_create _ λ create is_create. need create _ _ λ f.
                ask conn.search_path _ λ schemas is_path.
                  Ensures-bind (check_schemas conn role schemas) _
                    (λ x. All (λ s. conn.creates_in role s ≡ some false) schemas) Safe
                    (schemas-Ensures conn role schemas)
                    λ x closed. ask conn.memberships _ λ groups is_groups.
                      Ensures-bind (demand (leb (length groups) max_role_memberships) _) _
                        (λ x. leb (length groups) max_role_memberships ≡ true) Safe
                        (Ensures-demand _ _)
                        λ y few.
                          ask (conn.writable system_schemas (max_role_relations + 1)) _
                            λ rows is_rows.
                              Ensures-bind (demand (leb (length rows) max_role_relations) _) _
                                (λ x. Unit {0}) Safe
                                (Ensures-map (demand (leb (length rows) max_role_relations) _) _ _
                                  (λ z _. tt) (Ensures-demand _ _))
                                λ z _.
                                  Ensures-map (no_writable rows) (λ x. rows ≡ []) Safe
                                    (λ w none_there. record {
                                      flags = flags;
                                      row = is_row ∙ ap (λ r. some r) found;
                                      plain = (a, b, c, d);
                                      temp = is_temp ∙ ap (λ r. some r) e;
                                      create = is_create ∙ ap (λ r. some r) f;
                                      schemas = schemas;
                                      path = is_path;
                                      closed = closed;
                                      groups = groups;
                                      members = is_groups;
                                      few = ground (arith, few);
                                      nothing = is_rows ∙ ap (λ r. some r) none_there;
                                    })
                                    (writable-Ensures rows)

  safe-passes : IsSafeRole conn role → preflight_role conn role ≡ returns tt
  unfolding preflight_role
  safe-passes s =
      let p = s.plain in
      let few : leb (length s.groups) max_role_memberships ≡ true = ground (arith, s.few) in
      rw
        (
          preflight_role,
          s.row,
          p.0,
          p.1,
          p.2,
          p.3,
          s.temp,
          s.create,
          s.path,
          schemas-pass conn role s.schemas s.closed,
          s.members,
          few,
          s.nothing,
        )
        refl

  -- The preflight lets a role pass exactly when every question is answered, and the answers are
  -- that the role is plain, can create nothing, is in few groups and can write no relation.
  pub preflight_exact : (preflight_role conn role ≡ returns tt) ↔ IsSafeRole conn role
  preflight_exact =
      ((λ h. Ensures-elim (preflight_role conn role) Safe preflight-Ensures h), safe-passes)

module _ (int : String → Option ℤ) (str : ℤ → String) where
  -- The version that is kept is the number before the first dot, and it is 16 or above.
  abbrev pub IsSupported : Connection → ℤ → Type 0
  IsSupported conn major =
      ((version : Option String) × (conn.server_version ≡ some version)
        × (int (before_dot (text_or "" version)) ≡ some major))
      × (ltb_ℤ major min_server_major ≡ false)

  major-Ensures :
      (o : Option ℤ)
      → Ensures
          (checked_major int str o)
          (λ major. (o ≡ some major) × (ltb_ℤ major min_server_major ≡ false))
  major-Ensures none = tt
  major-Ensures (some major) =
      Ensures-bind (demand (not (ltb_ℤ major min_server_major)) _) _
        (λ x. not (ltb_ℤ major min_server_major) ≡ true)
        (λ m. (some major ≡ some m) × (ltb_ℤ m min_server_major ≡ false))
        (Ensures-demand (not (ltb_ℤ major min_server_major)) _)
        λ x supported. (refl, no_is_false _ supported)

  pub version-IsSupported :
      (conn : Connection) → Ensures (verify_version int str conn) (IsSupported conn)
  unfolding verify_version
  version-IsSupported conn =
      Ensures-bind (attempt conn.server_version) _ (λ v. conn.server_version ≡ some v)
        (IsSupported conn) (Ensures-attempt conn.server_version)
        λ version answered.
          Ensures-map (checked_major int str (int (before_dot (text_or "" version))))
            (λ m.
              (int (before_dot (text_or "" version)) ≡ some m) × (ltb_ℤ m min_server_major ≡ false))
            (IsSupported conn) (λ major h. ((version, answered, h.0), h.1))
            (major-Ensures (int (before_dot (text_or "" version))))
