-- ===== src/Schema/Model/Graph.antt =====
-- What the graph of the foreign keys is (core/schema/model.py, `fk_graph`).
use ezsql.Base.{
  String, Bool, true, false, ◌&&◌, ◌||◌, List, [], ◌∷◌, ◌++◌, is_in, ◌==◌, string_eq, ◌≡◌, refl,
  ◌∙◌, arith, inl, inr, Bool-cases,
}
use ezsql.Base.Dict
use ezsql.Base.Dict.{Dict}
use ezsql.Schema.Model.{ForeignKeyDef, SchemaModel, list_of, add_edge, graph_from, fk_graph}

-- Some foreign key of the list leads from one table to the other.
abbrev pub refers : String → String → List ForeignKeyDef → Bool
refers source target [] = false
refers source target (fk ∷ fks) =
    fk.source_table == source && fk.target_table == target || refers source target fks

abbrev pub has_edge : String → String → Dict String (List String) → Bool
has_edge source target graph = is_in target (list_of (Dict.get source graph))

is_in-append : (a b : String) (l : List String) → is_in a (l ++ b ∷ []) ≡ (is_in a l || b == a)
unfolding is_in
is_in-append a b [] = ground arith
is_in-append a b (x ∷ l) = ground (arith, is_in-append a b l)

has_edge-add :
    (source target : String) (fk : ForeignKeyDef) (graph : Dict String (List String))
    → has_edge source target (add_edge fk graph)
      ≡ (fk.source_table == source && fk.target_table == target || has_edge source target graph)
unfolding add_edge
has_edge-add source target fk graph = elim (Bool-cases (fk.source_table == source)) [
  | inl same ↦
      (let names : fk.source_table ≡ source = (string_eq.decides fk.source_table source).0 same in
        ground (
          arith,
          same,
          names,
          Dict.get-set fk.source_table source
              (list_of (Dict.get fk.source_table graph) ++ fk.target_table ∷ []) graph,
          is_in-append target fk.target_table (list_of (Dict.get source graph)),
        ))
  | inr other ↦ ground (
    arith,
    other,
    Dict.get-set fk.source_table source
        (list_of (Dict.get fk.source_table graph) ++ fk.target_table ∷ []) graph,
  )
]

graph_from_lem :
    (source target : String) (fks : List ForeignKeyDef) (graph : Dict String (List String))
    → has_edge source target (graph_from fks graph)
      ≡ (refers source target fks || has_edge source target graph)
unfolding graph_from
graph_from_lem source target [] graph = refl
graph_from_lem source target (fk ∷ fks) graph = ground (
  arith,
  graph_from_lem source target fks (add_edge fk graph),
  has_edge-add source target fk graph,
)

or_false : (b : Bool) → (b || false) ≡ b
or_false true = refl
or_false false = refl

-- The graph has an edge between two tables exactly when some foreign key leads from the one to the
-- other.
pub fk_graph_lem :
    (source target : String) (s : SchemaModel)
    → has_edge source target (fk_graph s) ≡ refers source target s.foreign_keys
unfolding fk_graph is_in Dict.get
fk_graph_lem source target s =
    graph_from_lem source target s.foreign_keys [] ∙ or_false (refers source target s.foreign_keys)
