-- ===== src/Dstore/Shared/Unshared.antt =====
-- dstore/mem.go: documents with maps of their own, and what a merge leaves of them.
use keys.Common.{
  ℕ, ◌≤◌, ◌<◌, [], ◌∷◌, Option, none, some, Str, str_eq, str_eq_iff, ◌≡◌, ◌≢◌, inl, inr, sym, ap,
  arith, ◌∙◌, Bool-cases, Option-cases,
}
use keys.Common.Assoc
use keys.Common.Assoc.{Assoc, lookup-insert}
use keys.Dstore.Path.{path_of}
use keys.Dstore.Document.{Document, Value, set_values, get_value}
use keys.Dstore.Shared.{Maps, SharedDocument, Shared, read, set_entries, shown}
use keys.Dstore.Shared.Merging.{set_entries-frame, read-set_entries, set_entries-IsMoved}

-- No two documents share a map, and no document's map is in free space.
pub record IsUnshared (docs : Assoc SharedDocument) (h : Maps) : Type 0 where
  pub below :
      (q : Str) (d : SharedDocument) (a : ℕ)
      → Assoc.lookup q docs ≡ some d
      → d.map_at ≡ some a
      → a < h.next
  pub apart :
      (q r : Str) (d e : SharedDocument) (a : ℕ)
      → Assoc.lookup q docs ≡ some d
      → Assoc.lookup r docs ≡ some e
      → d.map_at ≡ some a
      → e.map_at ≡ some a
      → q ≡ r

-- No document has the map at the address, which is not in free space.
unfoldable pub IsFresh : Assoc SharedDocument → Maps → Option ℕ → Type 0
IsFresh docs h values =
    (c : ℕ)
    → values ≡ some c
    → (c < h.next)
      × ((q : Str) (d : SharedDocument) → Assoc.lookup q docs ≡ some d → d.map_at ≢ some c)

-- The document under a key, with the values that it has now.
unfoldable pub seen : Shared → Str → Option Document
seen s path = elim (Assoc.lookup path s.docs) [ none ↦ none | some d ↦ some (shown s.maps d) ]

-- The document at a path, whatever way the path is written.
abbrev pub view_at : Shared → Str → Option Document
view_at s p = seen s (path_of (p ∷ []))

-- The value of a document under a name, if there is one.
unfoldable pub value_in : Option Document → Str → Option Value
value_in none name = none
value_in (some d) name = get_value d name

-- Another document that stands at a path keeps its values, if the maps at other addresses do.
shown-frame :
    (h g : Maps) (d : SharedDocument)
    → ((b : ℕ) → d.map_at ≡ some b → g.cell b ≡ h.cell b)
    → shown g d ≡ shown h d
unfolding shown read
shown-frame h g d same = elim (Option-cases d.map_at) [
  | inl e ↦
      ap
        (λ v. record {
          doc_path = d.at_path;
          values = v;
          created_at = d.created;
          updated_at = d.updated;
        })
        (ap (read g) e ∙ sym (ap (read h) e))
  | inr (b, e) ↦
      ap
        (λ v. record {
          doc_path = d.at_path;
          values = v;
          created_at = d.created;
          updated_at = d.updated;
        })
        (ap (read g) e ∙ ap some (same b e) ∙ sym (ap (read h) e))
]

pub insert-IsUnshared :
    (docs : Assoc SharedDocument) (h g : Maps) (path : Str) (new : SharedDocument)
    → IsUnshared docs h
    → h.next ≤ g.next
    → ((c : ℕ)
        → new.map_at ≡ some c
        → (c < g.next)
          × ((q : Str) (e : SharedDocument)
              → Assoc.lookup q docs ≡ some e
              → e.map_at ≡ some c
              → q ≡ path))
    → IsUnshared (Assoc.insert path new docs) g
insert-IsUnshared docs h g path new u grows own = record {
  below = λ q d a found at. elim (Bool-cases (str_eq path q)) [
    | inl e ↦
        let same : new ≡ d = ground (arith, lookup-insert path q new docs, found, e) in
        (own a (ap (λ x. x.map_at) same ∙ at)).0
    | inr e ↦
        let old : Assoc.lookup q docs ≡ some d =
          ground (arith, lookup-insert path q new docs, found, e) in
        omega (arith, u.below q d a old at, grows)
  ];
  apart = λ q r d e a fq fr dq er. elim (Bool-cases (str_eq path q)) [
    | inl iq ↦
        let isq : path ≡ q = (str_eq_iff path q).0 iq in
        let same : new ≡ d = ground (arith, lookup-insert path q new docs, fq, iq) in
        elim (Bool-cases (str_eq path r)) [
          | inl ir ↦ sym isq ∙ (str_eq_iff path r).0 ir
          | inr ir ↦
              let old : Assoc.lookup r docs ≡ some e =
                ground (arith, lookup-insert path r new docs, fr, ir) in
              sym isq ∙ sym ((own a (ap (λ x. x.map_at) same ∙ dq)).1 r e old er)
        ]
    | inr iq ↦
        let oldq : Assoc.lookup q docs ≡ some d =
          ground (arith, lookup-insert path q new docs, fq, iq) in
        elim (Bool-cases (str_eq path r)) [
          | inl ir ↦
              let same : new ≡ e = ground (arith, lookup-insert path r new docs, fr, ir) in
              (own a (ap (λ x. x.map_at) same ∙ er)).1 q d oldq dq ∙ (str_eq_iff path r).0 ir
          | inr ir ↦
              let oldr : Assoc.lookup r docs ≡ some e =
                ground (arith, lookup-insert path r new docs, fr, ir) in
              u.apart q r d e a oldq oldr dq er
        ]
  ];
}

-- A merge into a document of the store.
module _ (docs : Assoc SharedDocument) (h : Maps) (u : IsUnshared docs h) (path : Str)
    (doc : SharedDocument) (found : Assoc.lookup path docs ≡ some doc) (vs : Assoc Value) where
  pub shown-merged :
      shown
        (set_entries h doc.map_at vs).1
        (record doc { map_at = (set_entries h doc.map_at vs).0 })
      ≡ set_values (shown h doc) vs
  unfolding shown
  shown-merged = sym (read-set_entries (shown h doc) h doc.map_at vs)

  pub merged-frame :
      (q : Str) (e : SharedDocument)
      → Assoc.lookup q docs ≡ some e
      → path ≢ q
      → shown (set_entries h doc.map_at vs).1 e ≡ shown h e
  merged-frame q e other apart = shown-frame h (set_entries h doc.map_at vs).1 e (λ b at.
      set_entries-frame h doc.map_at vs b (u.below q e b other at)
        (λ own. apart (u.apart path q doc e b found other own at)))

  pub merged-IsUnshared :
      (new : SharedDocument)
      → new.map_at ≡ (set_entries h doc.map_at vs).0
      → IsUnshared (Assoc.insert path new docs) (set_entries h doc.map_at vs).1
  merged-IsUnshared new moved =
      let m = set_entries-IsMoved h doc.map_at vs in
      insert-IsUnshared docs h (set_entries h doc.map_at vs).1 path new u m.grows (λ c at.
        elim (m.there c (sym moved ∙ at)) [
          | inl same ↦ (
            omega (arith, u.below path doc c found same, m.grows),
            λ q e other own. u.apart q path e doc c other found own same,
          )
          | inr (low, high) ↦
              (high, λ q e other own. absurd (omega (arith, low, u.below q e c other own)))
        ])
