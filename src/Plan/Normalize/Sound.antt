-- ===== src/Plan/Normalize/Sound.antt =====
-- What the traversal of `_normalize_node` keeps of a plan tree, and how it counts.
use ezsql.Base.{
  ℕ, suc, ◌+◌, ◌-◌, ◌≤◌, String, ◌≡◌, refl, ap, true, false, Option, none, some, List, [], ◌∷◌,
  ◌++◌, length, length-append, arith, ◌==◌, string_eq, Bool-cases, inl, inr, max,
}
use ezsql.Plan.Json.{Numbers, Json, Items, Fields, arr, obj, nil, cons, end, field, get, as_number}
use ezsql.Plan.Model.{PlanNode, PlanNodes, ops, ops_all, height, height_all}
use ezsql.Plan.Redact.{Sqlglot}
use ezsql.Plan.Normalize.{
  PlanError, Result, ok, err, validation_error, ◌>>=◌, Limits, Counter, node_type, over, converted,
  required, node_fields, build_node, Traversal, visit, keep, normalize_plans, normalize_list,
  normalize_items, normalize_child, normalize_node,
}

-- A statement of what an action returns, if it does.
abbrev pub Ensures {ℓ κ} : {A : Type ℓ} → Result A → (A → Type κ) → Type κ
Ensures (ok a) P = P a
Ensures (err e) P = Unit

pub Ensures-bind {ℓ κ μ ν} :
    {A : Type ℓ} {B : Type κ} (m : Result A) (f : A → Result B) (P : A → Type μ) (Q : B → Type ν)
    → Ensures m P
    → ((a : A) → P a → Ensures (f a) Q)
    → Ensures (m >>= f) Q
Ensures-bind (ok a) f P Q h k = k a h
Ensures-bind (err e) f P Q h k = tt

pub Ensures-required {ℓ} :
    {A : Type ℓ} (e : PlanError) (o : Option A) → Ensures (required e o) (λ a. o ≡ some a)
Ensures-required e none = tt
Ensures-required e (some a) = refl

pub Ensures-self {ℓ} : {A : Type ℓ} (m : Result A) → Ensures m (λ a. m ≡ ok a)
Ensures-self (ok a) = refl
Ensures-self (err e) = tt

pub Ensures-elim {ℓ κ} :
    {A : Type ℓ} (m : Result A) (P : A → Type κ) {a : A} → Ensures m P → m ≡ ok a → P a
Ensures-elim m P h e = rw e at h

-- Four steps of which nothing is known, and what is made of their results.
-- What is made last, of four values and of one that is required.
pub Ensures-made {ℓ κ μ ν} :
    {A B : Type ℓ} {C : Type κ} {D : Type ν} (Q : C → Type μ) (m m' : Result A) (n n' : Result B)
    (e : PlanError) (o : Option D) (make : D → A → A → B → B → C)
    → ((d : D) → o ≡ some d → (a a' : A) (b b' : B) → Q (make d a a' b b'))
    → Ensures
        (do a ← m; a' ← m'; b ← n; b' ← n'; d ← required e o; ok (make d a a' b b'))
        Q
Ensures-made Q (err e') m' n n' e o make h = tt
Ensures-made Q (ok a) (err e') n n' e o make h = tt
Ensures-made Q (ok a) (ok a') (err e') n' e o make h = tt
Ensures-made Q (ok a) (ok a') (ok b) (err e') e o make h = tt
Ensures-made Q (ok a) (ok a') (ok b) (ok b') e none make h = tt
Ensures-made Q (ok a) (ok a') (ok b) (ok b') e (some d) make h = h d refl a a' b b'

-- The operation of a raw node, and those of the tree under it in the traversal's order.
abbrev op_or : Option String → String
op_or none = ""
op_or (some op) = op

unfoldable pub raw_op : {N : Type 0} → Fields N → String
unfolding node_type
raw_op raw = op_or (node_type raw)

unfoldable mutual
  pub raw_plans : {N : Type 0} → Fields N → List String
  raw_plans end = []
  raw_plans (field key v rest) = elim (key == "Plans") [
    | true ↦ raw_list v
    | false ↦ raw_plans rest
  ]

  pub raw_list : {N : Type 0} → Json N → List String
  raw_list (arr items) = raw_items items
  raw_list _ = []

  pub raw_items : {N : Type 0} → Items N → List String
  raw_items nil = []
  raw_items (cons v items) = raw_child v ++ raw_items items

  pub raw_child : {N : Type 0} → Json N → List String
  raw_child (obj raw) = raw_op raw ∷ raw_plans raw
  raw_child _ = []

-- The operations of a whole raw plan.
unfoldable pub raw_ops : {N : Type 0} → Fields N → List String
unfolding raw_op raw_plans
raw_ops raw = raw_op raw ∷ raw_plans raw

abbrev pub ops_of : {F : Type 0} → Option (PlanNode F) → List String
ops_of none = []
ops_of (some n) = ops n

abbrev pub height_of : {F : Type 0} → Option (PlanNode F) → ℕ
height_of none = 0
height_of (some n) = height n

-- From the counter `c` at a depth, over a raw tree with the operations `raw`, the traversal kept a
-- tree with the operations `kept` and the height `h`, and left the counter `c'`.
pub record Sound (l : Limits) (depth : ℕ) (raw : List String) (c : Counter) (kept : List String)
    (h : ℕ) (c' : Counter) : Type 0 where
  pub accounted : c'.visited + c.suppressed ≡ c.visited + length kept + c'.suppressed
  pub grows : c.suppressed ≤ c'.suppressed
  pub bounded : c.visited ≤ l.max_nodes + c.suppressed → c'.visited ≤ l.max_nodes + c'.suppressed
  pub deep : h ≤ l.max_depth + 1 - depth
  pub complete : c'.suppressed ≡ c.suppressed → kept ≡ raw

Sound-nothing : (l : Limits) (depth : ℕ) (c : Counter) → Sound l depth [] c [] 0 c
Sound-nothing l depth c = record {
  accounted = omega arith;
  grows = omega arith;
  bounded = λ h. h;
  deep = omega arith;
  complete = λ _. refl;
}

Sound-then :
    (l : Limits) (depth : ℕ) (raw raw' : List String) (c : Counter) (kept kept' : List String)
    (h h' : ℕ) (c' c'' : Counter)
    → Sound l depth raw c kept h c'
    → Sound l depth raw' c' kept' h' c''
    → Sound l depth (raw ++ raw') c (kept ++ kept') (max h h') c''
Sound-then l depth raw raw' c kept kept' h h' c' c'' s t = record {
  accounted = omega (arith, length-append kept kept', s.accounted, t.accounted);
  grows = omega (arith, s.grows, t.grows);
  bounded = λ b. t.bounded (s.bounded b);
  deep = omega (arith, s.deep, t.deep);
  complete = λ e.
      let e' : c'.suppressed ≡ c.suppressed = omega (arith, s.grows, t.grows) in
      let e'' : c''.suppressed ≡ c'.suppressed = omega (arith, s.grows, t.grows) in
      cc (s.complete e', t.complete e'');
}

-- A node over the bounds.
Sound-suppressed :
    (l : Limits) (depth : ℕ) (raw : List String) (c : Counter)
    → Sound l depth raw c [] 0 (record { visited = c.visited + 1; suppressed = c.suppressed + 1 })
Sound-suppressed l depth raw c = record {
  accounted = omega arith;
  grows = omega arith;
  bounded = λ h. omega arith;
  deep = omega arith;
  complete = λ e. absurd (omega arith);
}

-- A node within the bounds, above the tree that its children left.
Sound-kept :
    (l : Limits) (depth : ℕ) (op : String) (raw : List String) (c : Counter) (kept : List String)
    (h : ℕ) (c' : Counter)
    → over l (c.visited + 1) depth ≡ false
    → Sound l (depth + 1) raw (record c { visited = c.visited + 1 }) kept h c'
    → Sound l depth (op ∷ raw) c (op ∷ kept) (suc h) c'
Sound-kept l depth op raw c kept h c' low s = record {
  accounted = omega (arith, s.accounted);
  grows = s.grows;
  bounded = λ b. s.bounded (ground arith);
  deep = ground (arith, s.deep);
  complete = λ e. ap (◌∷◌ op) (s.complete e);
}

module _ (numbers : Numbers) (sqlglot : Sqlglot) (text_of : Json numbers.Num → String) where
  open numbers use {Num, Float, to_float, to_int}

  module _ (l : Limits) where
    abbrev Built : Fields Num → PlanNodes Float → PlanNode Float → Type 0
    Built raw below n = (ops n ≡ raw_op raw ∷ ops_all below) × (height n ≡ suc (height_all below))

    build_node-Built :
        (raw : Fields Num) (below : PlanNodes Float)
        → Ensures (build_node numbers sqlglot text_of l raw below) (Built raw below)
    unfolding build_node raw_op ops height
    build_node-Built raw below =
        Ensures-made (Built raw below)
          (converted to_float (as_number numbers (get "Startup Cost" raw)))
          (converted to_float (as_number numbers (get "Total Cost" raw)))
          (converted to_int (as_number numbers (get "Plan Rows" raw)))
          (converted to_int (as_number numbers (get "Plan Width" raw))) validation_error
          (node_type raw)
          (λ op a a' b b'.
            PlanNode.node (node_fields numbers sqlglot text_of l raw op a a' b b') below)
          (λ op e a a' b b'. (rw e, refl))

    visit-Sound :
        (raw : Fields Num) (depth : ℕ)
        (children : Traversal numbers sqlglot text_of l (PlanNodes Float)) (c : Counter)
        → ((d : Counter)
            → Ensures
                (children d)
                (λ r. Sound l (depth + 1) (raw_plans raw) d (ops_all r.0) (height_all r.0) r.1))
        → Ensures
            (visit numbers sqlglot text_of l raw depth children c)
            (λ r. Sound l depth (raw_op raw ∷ raw_plans raw) c (ops_of r.0) (height_of r.0) r.1)
    unfolding visit
    visit-Sound raw depth children c h = elim (Bool-cases (over l (c.visited + 1) depth)) [
      | inl high ↦ rw high (Sound-suppressed l depth _ c)
      | inr low ↦ rw low (
          Ensures-bind (children (record c { visited = c.visited + 1 })) _
            (λ r.
              Sound l (depth + 1) (raw_plans raw) (record c { visited = c.visited + 1 })
                (ops_all r.0) (height_all r.0) r.1)
            _ (h (record c { visited = c.visited + 1 }))
            λ r s.
              Ensures-bind (build_node numbers sqlglot text_of l raw r.0) _ (Built raw r.0) _
                (build_node-Built raw r.0)
                λ n b. rw (b.0, b.1) (Sound-kept l depth _ _ c _ _ r.1 low s))
    ]

    abbrev Walked : ℕ → List String → Counter → PlanNodes Float × Counter → Type 0
    Walked depth raw c r = Sound l depth raw c (ops_all r.0) (height_all r.0) r.1

    joined :
        {depth : ℕ} {raw raw' : List String} {c : Counter} (r : Option (PlanNode Float) × Counter)
        → Sound l depth raw c (ops_of r.0) (height_of r.0) r.1
        → (r' : PlanNodes Float × Counter) → Walked depth raw' r.1 r'
        → Walked depth (raw ++ raw') c (keep numbers sqlglot text_of l r.0 r'.0, r'.1)
    unfolding ops height
    joined {depth} {raw} {raw'} {c} (none, c') s (ns, c'') t =
        let u = Sound-then l depth raw raw' c [] (ops_all ns) 0 (height_all ns) c' c'' s t in
        record {
          accounted = u.accounted;
          grows = u.grows;
          bounded = u.bounded;
          deep = t.deep;
          complete = u.complete;
        }
    joined (some n, c') s (ns, c'') t = Sound-then l _ _ _ _ _ _ _ _ c' c'' s t

    -- The loop over the children, one step: a child, then the rest.
    items-Sound :
        (depth : ℕ) (raw raw' : List String) (c : Counter)
        (child : Result (Option (PlanNode Float) × Counter))
        (rest : Counter → Result (PlanNodes Float × Counter))
        → Ensures child (λ r. Sound l depth raw c (ops_of r.0) (height_of r.0) r.1)
        → ((d : Counter) → Ensures (rest d) (Walked depth raw' d))
        → Ensures
            (do (n, c') ← child; (ns, c'') ← rest c'; ok (keep numbers sqlglot text_of l n ns, c''))
            (Walked depth (raw ++ raw') c)
    items-Sound depth raw raw' c child rest h k =
        Ensures-bind child _ (λ r. Sound l depth raw c (ops_of r.0) (height_of r.0) r.1) _ h
          λ r s. Ensures-bind (rest r.1) _ (Walked depth raw' r.1) _ (k r.1) λ r' t. joined r s r' t

    plans_step :
        (key : String) (v : Json Num) (rest : Fields Num) (depth : ℕ) (c : Counter)
        → Ensures (normalize_list numbers sqlglot text_of l v depth c) (Walked depth (raw_list v) c)
        → Ensures
            (normalize_plans numbers sqlglot text_of l rest depth c)
            (Walked depth (raw_plans rest) c)
        → Ensures
            (normalize_plans numbers sqlglot text_of l (field key v rest) depth c)
            (Walked depth (raw_plans (field key v rest)) c)
    unfolding normalize_plans raw_plans
    plans_step key v rest depth c h k =
        elim (key == "Plans")
          as (λ b.
            Ensures
              (elim b [
                | true ↦ normalize_list numbers sqlglot text_of l v depth c
                | false ↦ normalize_plans numbers sqlglot text_of l rest depth c
              ])
              (Walked depth (elim b [ true ↦ raw_list v | false ↦ raw_plans rest ]) c)) [
                | true ↦ h
                | false ↦ k
              ]

    mutual
      unfolding normalize_plans raw_plans ops height

      plans-Sound :
          (raw : Fields Num) (depth : ℕ) (c : Counter)
          → Ensures
              (normalize_plans numbers sqlglot text_of l raw depth c)
              (Walked depth (raw_plans raw) c)
      plans-Sound end depth c = Sound-nothing l depth c
      plans-Sound (field key v rest) depth c =
          plans_step key v rest depth c (list-Sound v depth c) (plans-Sound rest depth c)

      list-Sound :
          (v : Json Num) (depth : ℕ) (c : Counter)
          → Ensures
              (normalize_list numbers sqlglot text_of l v depth c)
              (Walked depth (raw_list v) c)
      list-Sound (arr items) depth c = all-Sound items depth c
      list-Sound _ depth c = Sound-nothing l depth c

      all-Sound :
          (items : Items Num) (depth : ℕ) (c : Counter)
          → Ensures
              (normalize_items numbers sqlglot text_of l items depth c)
              (Walked depth (raw_items items) c)
      all-Sound nil depth c = Sound-nothing l depth c
      all-Sound (cons v items) depth c =
          items-Sound depth (raw_child v) (raw_items items) c _ _ (child-Sound v depth c)
            (λ d. all-Sound items depth d)

      child-Sound :
          (v : Json Num) (depth : ℕ) (c : Counter)
          → Ensures
              (normalize_child numbers sqlglot text_of l v depth c)
              (λ r. Sound l depth (raw_child v) c (ops_of r.0) (height_of r.0) r.1)
      child-Sound (obj raw) depth c = visit-Sound raw depth _ c (λ d. plans-Sound raw (depth + 1) d)
      child-Sound _ depth c = Sound-nothing l depth c

    pub node-Sound :
        (raw : Fields Num) (depth : ℕ) (c : Counter)
        → Ensures
            (normalize_node numbers sqlglot text_of l raw depth c)
            (λ r. Sound l depth (raw_ops raw) c (ops_of r.0) (height_of r.0) r.1)
    unfolding normalize_node raw_ops
    node-Sound raw depth c = visit-Sound raw depth _ c (λ d. plans-Sound raw (depth + 1) d)
