-- ===== src/Domain/Chat/Sources.antt =====
-- The sources of an answer are exactly the cited notes, each once and each from the context
-- (`verified_sources`).
use mathlib.Core.List.{Memᴰ}
use mathlib.Core.List.Memᴰ.{head, tail}
use rag_anotacoes_sdd.Prelude.{
  ◌≡◌, ◌↔◌, refl, ap, inl, inr, true, false, ◌||◌, none, some, List, [], ◌∷◌, ◌++◌, arith,
  Bool-cases, Option-cases, map, ==_iff, All, All-append, Uuid,
}
use rag_anotacoes_sdd.Domain.Chat.{Source, by_id, member, verify_from, verified_sources}

abbrev pub ids : List Source → List Uuid
ids = map (λ s. s.note_id)

-- No identifier stands twice.
abbrev pub IsDistinct : List Uuid → Type 0
IsDistinct [] = Unit
IsDistinct (x ∷ xs) = (member x xs ≡ false) × IsDistinct xs

pub record CitesExactly (requested : List Uuid) (available out : List Source) : Type 0 where
  pub same : (k : Uuid) → member k (ids out) ≡ member k requested
  pub distinct : IsDistinct (ids out)
  pub genuine : All (λ s. Memᴰ s available) out

by_id-Memᴰ :
    (available : List Source) (k : Uuid) {s : Source}
    → by_id available k ≡ some s
    → (s.note_id ≡ k) × Memᴰ s available
unfolding by_id
by_id-Memᴰ [] k h = cc
by_id-Memᴰ (a ∷ rest) k {s} h = elim (Option-cases (by_id rest k)) [
  | inl e ↦ (ground arith, head (ground arith))
  | inr (t, e) ↦ let (same, found) = by_id-Memᴰ rest k {s = s} (ground arith) in (same, tail found)
]

by_id-none :
    (available : List Source) (k : Uuid)
    → by_id available k ≡ none
    → member k (ids available) ≡ false
unfolding by_id
by_id-none [] k h = refl
by_id-none (a ∷ rest) k h = ground (arith, by_id-none rest k)

member-append : (k : Uuid) (xs ys : List Uuid) → member k (xs ++ ys) ≡ (member k xs || member k ys)
member-append k [] ys = refl
member-append k (x ∷ xs) ys = ground (arith, member-append k xs ys)

ids-append : (xs ys : List Source) → ids (xs ++ ys) ≡ ids xs ++ ids ys
ids-append [] ys = refl
ids-append (x ∷ xs) ys = ap (◌∷◌ x.note_id) (ids-append xs ys)

IsDistinct-snoc :
    (xs : List Uuid) (k : Uuid) → IsDistinct xs → member k xs ≡ false → IsDistinct (xs ++ k ∷ [])
IsDistinct-snoc [] k d h = (refl, tt)
IsDistinct-snoc (x ∷ xs) k d h =
    (ground (arith, member-append x xs (k ∷ [])), IsDistinct-snoc xs k d.1 (ground arith))

-- What the loop knows of the sources that it has collected.
record Collects (available unique : List Source) (seen : List Uuid) : Type 0 where
  same : (k : Uuid) → member k (ids unique) ≡ member k seen
  distinct : IsDistinct (ids unique)
  genuine : All (λ s. Memᴰ s available) unique

collect :
    (available unique : List Source) (seen : List Uuid) (k : Uuid) (s : Source)
    → Collects available unique seen
    → by_id available k ≡ some s
    → member k seen ≡ false
    → Collects available (unique ++ s ∷ []) (k ∷ seen)
collect available unique seen k s v found fresh =
    let (at, there) = by_id-Memᴰ available k found in
    record {
      same = λ j.
          rw (ids-append unique (s ∷ []))
            (ground (arith, v.same j, at, member-append j (ids unique) (s.note_id ∷ [])));
      distinct =
          rw (ids-append unique (s ∷ []))
            (IsDistinct-snoc (ids unique) s.note_id v.distinct (ground (arith, at, v.same k)));
      genuine = All-append _ unique (s ∷ []) v.genuine (there, tt);
    }

verify_from-Collects :
    (available unique : List Source) (seen requested : List Uuid) {out : List Source}
    → Collects available unique seen
    → verify_from available unique seen requested ≡ some out
    → ((k : Uuid) → member k (ids out) ≡ (member k seen || member k requested))
      × IsDistinct (ids out)
      × All (λ s. Memᴰ s available) out
unfolding verify_from
verify_from-Collects available unique seen [] {out} v h =
    let e : out ≡ unique = cc in rw e (λ k. ground (arith, v.same k), v.distinct, v.genuine)
verify_from-Collects available unique seen (x ∷ rest) {out} v h =
    elim (Option-cases (by_id available x)) [
      | inl e ↦ absurd (cc (rw (e, verify_from) at h))
      | inr (s, e) ↦ elim (Bool-cases (member x seen)) [
        | inl old ↦
            let (same, distinct, genuine) =
              verify_from-Collects available unique seen rest {out = out} v
                (rw (e, old, verify_from) at h) in
            (λ k. ground (arith, same k, old, ==_iff x k), distinct, genuine)
        | inr new ↦
            let (same, distinct, genuine) =
              verify_from-Collects available (unique ++ s ∷ []) (x ∷ seen) rest {out = out}
                (collect available unique seen x s v e new) (rw (e, new, verify_from) at h) in
            (λ k. ground (arith, same k), distinct, genuine)
      ]
    ]

-- When the cited identifiers are accepted, the sources are those that were cited, each once
-- and each one of the available sources.
pub verified_sources-CitesExactly :
    (requested : List Uuid) (available : List Source) {out : List Source}
    → verified_sources requested available ≡ some out
    → CitesExactly requested available out
unfolding verified_sources
verified_sources-CitesExactly requested available {out} h =
    let (same, distinct, genuine) =
      verify_from-Collects available [] [] requested {out = out}
        (record { same = λ k. refl; distinct = tt; genuine = tt }) h in
    record { same = same; distinct = distinct; genuine = genuine }

by_id-absent :
    (available : List Source) (k : Uuid)
    → member k (ids available) ≡ false
    → by_id available k ≡ none
unfolding by_id
by_id-absent [] k h = refl
by_id-absent (a ∷ rest) k h = ground (arith, by_id-absent rest k)

verify_from-none :
    (available unique : List Source) (seen requested : List Uuid)
    → verify_from available unique seen requested ≡ none
    → (k : Uuid) × (member k requested ≡ true) × (member k (ids available) ≡ false)
unfolding verify_from
verify_from-none available unique seen [] h = cc
verify_from-none available unique seen (x ∷ rest) h = elim (Option-cases (by_id available x)) [
  | inl e ↦ (x, ground arith, by_id-none available x e)
  | inr (s, e) ↦ elim (Bool-cases (member x seen)) [
    | inl old ↦
        let (k, cited, absent) =
          verify_from-none available unique seen rest (rw (e, old, verify_from) at h) in
        (k, ground arith, absent)
    | inr new ↦
        let (k, cited, absent) =
          verify_from-none available (unique ++ s ∷ []) (x ∷ seen) rest
            (rw (e, new, verify_from) at h) in
        (k, ground arith, absent)
  ]
]

verify_from-unknown :
    (available unique : List Source) (seen requested : List Uuid) (k : Uuid)
    → member k requested ≡ true
    → member k (ids available) ≡ false
    → verify_from available unique seen requested ≡ none
unfolding verify_from
verify_from-unknown available unique seen [] k cited absent = cc
verify_from-unknown available unique seen (x ∷ rest) k cited absent =
    elim (Option-cases (by_id available x)) [
      | inl e ↦ rw (e, verify_from)
      | inr (s, e) ↦
          let later : member k rest ≡ true =
            ground (arith, by_id-absent available k absent, ==_iff x k) in
          ground (
            arith,
            verify_from-unknown available unique seen rest k later absent,
            verify_from-unknown available (unique ++ s ∷ []) (x ∷ seen) rest k later absent,
          )
    ]

-- The cited identifiers are refused exactly when one of them is not available.
pub verified_sources-none_iff :
    (requested : List Uuid) (available : List Source)
    → (verified_sources requested available ≡ none)
      ↔ ((k : Uuid) × (member k requested ≡ true) × (member k (ids available) ≡ false))
unfolding verified_sources
verified_sources-none_iff requested available = (
  verify_from-none available [] [] requested,
  λ (k, cited, absent). verify_from-unknown available [] [] requested k cited absent,
)
