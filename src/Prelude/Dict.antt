-- ===== src/Prelude/Dict.antt =====
-- A `HashMap` from byte arrays, as an association list that holds a key once; the program never
-- iterates over one in an order that matters. A `HashSet` of byte arrays is a list without repeats.
use Prim.Native.Nat.{suc}
use mathlib.Core.Path.{◌≡◌, refl}
use mathlib.Core.Bool.{Bool, false, ◌||◌}
use mathlib.Core.Option.{Option, none, some}
use mathlib.Core.List.{List, [], ◌∷◌}
use native.Mathlib.Omega.{arith}
use pardosa.Prelude.Tests.{if◌then◌else◌}
use pardosa.Prelude.Lists.{length}
use pardosa.Prelude.Bytes.{Bytes, bytes_eq, bytes_eq_iff}

module _ {ℓ} {V : Type ℓ} where
  unfoldable pub get : Bytes → List (Bytes × V) → Option V
  get k [] = none
  get k ((j, v) ∷ m) = if bytes_eq j k then some v else get k m

  -- `insert`, also the write through `get_mut` of a key that is there.
  unfoldable pub insert : Bytes → V → List (Bytes × V) → List (Bytes × V)
  insert k v [] = (k, v) ∷ []
  insert k v ((j, w) ∷ m) = if bytes_eq j k then (j, v) ∷ m else (j, w) ∷ insert k v m

  pub get-insert :
      (k j : Bytes) (v : V) (m : List (Bytes × V))
      → get j (insert k v m) ≡ (if bytes_eq k j then some v else get j m)
  unfolding get insert
  get-insert k j v [] = refl
  get-insert k j v ((i, w) ∷ m) =
      ground (arith, bytes_eq_iff k j, bytes_eq_iff i k, bytes_eq_iff i j, get-insert k j v m)

  pub length-insert_new :
      (k : Bytes) (v : V) (m : List (Bytes × V))
      → get k m ≡ none
      → length (insert k v m) ≡ suc (length m)
  unfolding get insert
  length-insert_new k v [] h = refl
  length-insert_new k v ((j, w) ∷ m) h = ground (arith, length-insert_new k v m)

  pub length-insert_old :
      (k : Bytes) (v w : V) (m : List (Bytes × V))
      → get k m ≡ some w
      → length (insert k v m) ≡ length m
  unfolding get insert
  length-insert_old k v w [] h = ground arith
  length-insert_old k v w ((j, u) ∷ m) h = ground (arith, length-insert_old k v w m)

-- `HashSet::contains`, and `HashSet::insert`.
unfoldable pub contains : Bytes → List Bytes → Bool
contains k [] = false
contains k (j ∷ s) = bytes_eq j k || contains k s

unfoldable pub add : Bytes → List Bytes → List Bytes
unfolding contains
add k s = if contains k s then s else k ∷ s

pub contains-add :
    (k j : Bytes) (s : List Bytes) → contains j (add k s) ≡ (bytes_eq k j || contains j s)
unfolding add
contains-add k j s = ground (arith, bytes_eq_iff k j)

pub length-add_new :
    (k : Bytes) (s : List Bytes) → contains k s ≡ false → length (add k s) ≡ suc (length s)
unfolding add
length-add_new k s h = ground arith
