-- ===== src/Ffi/Strings.antt =====
-- The strings that Rust has allocated with `CString::into_raw` and not yet freed.
use tierdb_duckdb.Prelude.{
  ℕ, suc, Text, ◌≡◌, Option, none, some, List, [], ◌∷◌, ◌==◌, ==-refl, if◌then◌else◌,
}
use mathlib.Core.Option

pub record Heap : Type 0 where
  pub live : List (ℕ × Text)
  pub next : ℕ

-- `CString::into_raw`
unfoldable pub alloc : Text → Heap → ℕ × Heap
alloc s h = (h.next, record { live = (h.next, s) ∷ h.live; next = suc h.next })

lookup : ℕ → List (ℕ × Text) → Option Text
lookup p [] = none
lookup p ((q, s) ∷ l) = if q == p then some s else lookup p l

remove : ℕ → List (ℕ × Text) → Option (List (ℕ × Text))
remove p [] = none
remove p ((q, s) ∷ l) = if q == p then some l else Option.map (λ r. (q, s) ∷ r) (remove p l)

-- A read through a pointer; `none` if nothing is allocated there.
unfoldable pub load : ℕ → Heap → Option Text
unfolding lookup
load p h = lookup p h.live

-- `drop(CString::from_raw(s))`; `none` if nothing is allocated there.
unfoldable pub release : ℕ → Heap → Option Heap
unfolding remove
release p h = Option.map (λ l. record h { live = l }) (remove p h.live)

-- A string that has just been allocated is read and freed, and nothing else changes.
pub load-alloc : (s : Text) (h : Heap) → load (alloc s h).0 (alloc s h).1 ≡ some s
unfolding load alloc
load-alloc s h = rw ==-refl

pub release-alloc :
    (s : Text) (h : Heap)
    → release (alloc s h).0 (alloc s h).1 ≡ some (record { live = h.live; next = suc h.next })
unfolding release alloc
release-alloc s h = rw ==-refl
