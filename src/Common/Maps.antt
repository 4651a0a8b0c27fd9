-- ===== src/Common/Maps.antt =====
-- A Go map as a list of entries. Where the source ranges over a map the model walks the list, so a
-- theorem for every list is one for every iteration order.
use mathlib.Core.Path.{◌≡◌, refl, sym, ap, ◌∙◌}
use mathlib.Core.Bool.{true, false}
use mathlib.Core.Option.{Option, none, some}
use mathlib.Core.List.{List, [], ◌∷◌, ◌++◌, append_assoc, append-nil}
use native.Mathlib.Omega.{arith}
use xboard_node_win.Common.Tests.{if◌then◌else◌, is_empty}
use xboard_node_win.Common.Key.{Key, ◌==ₖ◌}

abbrev pub Dict {ℓ κ} : Type ℓ → Type κ → Type (ℓ ⊔ κ)
Dict K V = List (K × V)

module _ {ℓ κ} {K : Type ℓ} {V : Type κ} ⦃e : Key K⦄ where
  -- `v, ok := m[k]`
  unfoldable pub lookup : K → Dict K V → Option V
  lookup k [] = none
  lookup k ((j, v) ∷ m) = if j ==ₖ k then some v else lookup k m

  -- `m[k] = v`
  unfoldable pub insert : K → V → Dict K V → Dict K V
  insert k v [] = (k, v) ∷ []
  insert k v ((j, w) ∷ m) = if j ==ₖ k then (j, v) ∷ m else (j, w) ∷ insert k v m

  -- `delete(m, k)`
  unfoldable pub erase : K → Dict K V → Dict K V
  erase k [] = []
  erase k ((j, w) ∷ m) = if j ==ₖ k then erase k m else (j, w) ∷ erase k m

  -- No key is listed twice, as in every Go map.
  abbrev pub IsMap : Dict K V → Type (ℓ ⊔ κ)
  IsMap [] = Unit
  IsMap ((k, v) ∷ m) = (lookup k m ≡ none) × IsMap m

  pub lookup-insert :
      (j k : K) (v : V) (m : Dict K V)
      → lookup j (insert k v m) ≡ (if k ==ₖ j then some v else lookup j m)
  unfolding lookup insert
  lookup-insert j k v [] = refl
  lookup-insert j k v ((i, w) ∷ m) =
      ground (arith, e.beq_iff i k, e.beq_iff k j, e.beq_iff i j, lookup-insert j k v m)

  pub lookup-erase :
      (j k : K) (m : Dict K V) → lookup j (erase k m) ≡ (if k ==ₖ j then none else lookup j m)
  unfolding lookup erase
  lookup-erase j k [] = ground arith
  lookup-erase j k ((i, w) ∷ m) =
      ground (arith, e.beq_iff i k, e.beq_iff k j, e.beq_iff i j, lookup-erase j k m)

  pub insert-IsMap : (k : K) (v : V) (m : Dict K V) → IsMap m → IsMap (insert k v m)
  unfolding lookup insert
  insert-IsMap k v [] h = (refl, tt)
  insert-IsMap k v ((i, w) ∷ m) h =
      ground (arith, e.beq_iff i k, e.beq_iff k i, insert-IsMap k v m h.1, lookup-insert i k v m)

  pub erase-IsMap : (k : K) (m : Dict K V) → IsMap m → IsMap (erase k m)
  unfolding lookup erase
  erase-IsMap k [] h = tt
  erase-IsMap k ((i, w) ∷ m) h =
      ground (arith, e.beq_iff i k, erase-IsMap k m h.1, lookup-erase i k m)

pub beq_refl {ℓ} : {K : Type ℓ} ⦃e : Key K⦄ (k : K) → (k ==ₖ k) ≡ true
beq_refl ⦃e⦄ k = (e.beq_iff k k).1 refl

module _ {ℓ κ} {K : Type ℓ} {V : Type κ} ⦃e : Key K⦄ where
  -- A new key goes to the end.
  pub insert_new :
      (k : K) (v : V) (m : Dict K V) → lookup k m ≡ none → insert k v m ≡ m ++ (k, v) ∷ []
  unfolding lookup insert
  insert_new k v [] h = refl
  insert_new k v ((i, w) ∷ m) h = ground (arith, e.beq_iff i k, insert_new k v m)

  pub lookup-append :
      (k : K) (m n : Dict K V)
      → lookup k (m ++ n) ≡ elim (lookup k m) [ none ↦ lookup k n | some v ↦ some v ]
  unfolding lookup
  lookup-append k [] n = refl
  lookup-append k ((i, w) ∷ m) n = ground (arith, e.beq_iff i k, lookup-append k m n)

module _ {ℓ κ} {K : Type ℓ} {V : Type κ} ⦃e : Key K⦄ where
  -- The loop that copies a map: `for k, v := range src { dst[k] = v }`.
  unfoldable pub copy_into : Dict K V → Dict K V → Dict K V
  copy_into dst [] = dst
  copy_into dst ((k, v) ∷ src) = copy_into (insert k v dst) src

  -- No key of the second map is one of the first.
  AllFree : Dict K V → Dict K V → Type (ℓ ⊔ κ)
  AllFree dst [] = Unit
  AllFree dst ((k, v) ∷ src) = (lookup k dst ≡ none) × AllFree dst src

  AllFree-nil : (src : Dict K V) → AllFree [] src
  unfolding AllFree lookup
  AllFree-nil [] = tt
  AllFree-nil ((k, v) ∷ src) = (refl, AllFree-nil src)

  AllFree-insert :
      (k : K) (v : V) (dst src : Dict K V)
      → lookup k src ≡ none
      → AllFree dst src
      → AllFree (insert k v dst) src
  unfolding AllFree lookup
  AllFree-insert k v dst [] h f = tt
  AllFree-insert k v dst ((j, w) ∷ src) h f =
      ground
        (arith, e.beq_iff j k, e.beq_iff k j, lookup-insert j k v dst, AllFree-insert k v dst src)

  copy_into-append :
      (dst src : Dict K V) → IsMap src → AllFree dst src → copy_into dst src ≡ dst ++ src
  unfolding copy_into AllFree
  copy_into-append dst [] m f = sym (append-nil dst)
  copy_into-append dst ((k, v) ∷ src) m f =
      copy_into-append (insert k v dst) src m.1 (AllFree-insert k v dst src m.0 f.1)
      ∙ (ap (λ d. d ++ src) (insert_new k v dst f.0) ∙ append_assoc dst ((k, v) ∷ []) src)

  -- Copying a map gives the same entries.
  pub copy_into_nil : (src : Dict K V) → IsMap src → copy_into [] src ≡ src
  copy_into_nil src m = copy_into-append [] src m (AllFree-nil src)

  pub copy_into-IsMap : (dst src : Dict K V) → IsMap dst → IsMap (copy_into dst src)
  unfolding copy_into
  copy_into-IsMap dst [] m = m
  copy_into-IsMap dst ((k, v) ∷ src) m =
      copy_into-IsMap (insert k v dst) src (insert-IsMap k v dst m)

  pub is_empty-insert : (k : K) (v : V) (m : Dict K V) → is_empty (insert k v m) ≡ false
  unfolding insert
  is_empty-insert k v [] = refl
  is_empty-insert k v (x ∷ m) = ground arith

  is_empty-copy_into :
      (dst src : Dict K V) → is_empty dst ≡ false → is_empty (copy_into dst src) ≡ false
  unfolding copy_into
  is_empty-copy_into dst [] h = h
  is_empty-copy_into dst ((k, v) ∷ src) h =
      is_empty-copy_into (insert k v dst) src (is_empty-insert k v dst)

  pub is_empty-copy : (x : K × V) (src : Dict K V) → is_empty (copy_into [] (x ∷ src)) ≡ false
  unfolding copy_into
  is_empty-copy x src = is_empty-copy_into (insert x.0 x.1 []) src (is_empty-insert x.0 x.1 [])
