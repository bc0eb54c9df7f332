-- ===== src/Keys/Decode.antt =====
-- The parts can be read back from the text of a key (cache/keys.py, `_hash`).
use Prim.Native.Char.{Char, code}
use ezsql.Base.{
  String, false, List, [], ◌∷◌, map, nat_beq, ◌≡◌, refl, ap, ◌∙◌, inl, inr, Bool-cases,
  if◌then◌else◌, text_append, has_char, has_char-append, All, arith,
}
use ezsql.Keys.{Part, part, text_join}

abbrev add_char : Char → List String → List String
add_char c [] = String.◌∷◌ c "" ∷ []
add_char c (s ∷ l) = String.◌∷◌ c s ∷ l

-- The texts between the bars.
unfoldable pub split_bars : String → List String
split_bars String.[] = "" ∷ []
split_bars (String.◌∷◌ c s) =
    let rest = split_bars s in if nat_beq (code c) b'|' then "" ∷ rest else add_char c rest

-- The texts before and after the first sign of equality.
unfoldable pub split_equal : String → Part
split_equal String.[] = ("", "")
split_equal (String.◌∷◌ c s) =
    let (k, v) = split_equal s in if nat_beq (code c) b'=' then ("", s) else (String.◌∷◌ c k, v)

abbrev pub decode : String → List Part
decode s = map split_equal (split_bars s)

-- No bar in the item, and no sign of equality in its key.
abbrev pub IsPlain : Part → Type 0
IsPlain p = (has_char b'|' p.0 ≡ false) × (has_char b'|' p.1 ≡ false) × (has_char b'=' p.0 ≡ false)

split_bars-free : (s : String) → has_char b'|' s ≡ false → split_bars s ≡ s ∷ []
unfolding split_bars has_char
split_bars-free String.[] h = refl
split_bars-free (String.◌∷◌ c s) h = elim (Bool-cases (nat_beq (code c) b'|')) [
  | inl bar ↦ absurd (cc (rw bar at h))
  | inr other ↦ rw (other, split_bars-free s (rw other at h)) refl
]

split_bars-append :
    (s t : String)
    → has_char b'|' s ≡ false
    → split_bars (text_append s (text_append "|" t)) ≡ s ∷ split_bars t
unfolding split_bars has_char text_append
split_bars-append String.[] t h = refl
split_bars-append (String.◌∷◌ c s) t h = elim (Bool-cases (nat_beq (code c) b'|')) [
  | inl bar ↦ absurd (cc (rw bar at h))
  | inr other ↦ rw (other, split_bars-append s t (rw other at h)) refl
]

split_equal-part : (k v : String) → has_char b'=' k ≡ false → split_equal (part (k, v)) ≡ (k, v)
unfolding part split_equal has_char text_append
split_equal-part String.[] v h = refl
split_equal-part (String.◌∷◌ c k) v h = elim (Bool-cases (nat_beq (code c) b'=')) [
  | inl equal ↦ absurd (cc (rw equal at h))
  | inr other ↦ rw (other, split_equal-part k v (rw other at h)) refl
]

part_free : (p : Part) → IsPlain p → has_char b'|' (part p) ≡ false
unfolding part has_char
part_free p h =
    ground (
      arith,
      has_char-append b'|' p.0 (text_append "=" p.1),
      has_char-append b'|' "=" p.1,
      h.0,
      h.1,
    )

-- The items come back from the text, where no item has a bar and no key a sign of equality.
pub decode_lem :
    (p : Part) (l : List Part)
    → All IsPlain (p ∷ l)
    → decode (text_join "|" (map part (p ∷ l))) ≡ p ∷ l
unfolding text_join
decode_lem p [] h =
    ap (map split_equal) (split_bars-free (part p) (part_free p h.0))
    ∙ ap (λ q. q ∷ []) (split_equal-part p.0 p.1 h.0.2)
decode_lem p (q ∷ l) h =
    ap (map split_equal)
      (split_bars-append (part p) (text_join "|" (map part (q ∷ l))) (part_free p h.0))
    ∙ ap (λ x. x ∷ decode (text_join "|" (map part (q ∷ l)))) (split_equal-part p.0 p.1 h.0.2)
    ∙ ap (λ m. p ∷ m) (decode_lem q l h.1)
