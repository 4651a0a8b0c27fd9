-- ===== src/Config/Layout/Apart.antt =====
-- What `ValidateStartupLayout` of internal/config/config.go keeps apart.
use xboard_node_win.Common.{
  ℤ, pos, ltb_ℤ, Text, Dict, lookup, insert, lookup-insert, int_key, text_key, beq_text,
  beq_text_iff, Bool, true, false, if◌then◌else◌, is_empty, trim_space, Option, none, some, List,
  [], ◌∷◌, ◌++◌, ok, Distinct, AllNew, AllNew-insert, ◌≡◌, refl, arith, Result-cases, ◌⊎◌,
  Option-cases, Bool-cases, inl, inr,
}
use xboard_node_win.Config.{Config, is_machine_mode}
use xboard_node_win.Config.Expand.{expand_nodes}
use xboard_node_win.Config.Layout.{
  Claimed, binding_of, claim_nodes, claim_instance_nodes, claim_instance, claim_all,
  validate_startup_layout, claim_port, claim_dir,
}

-- The bindings of nodes.
abbrev node_bindings : List Config → List Text
node_bindings [] = []
node_bindings (n ∷ ns) = binding_of n ∷ node_bindings ns

abbrev own_bindings : Config → List Text
own_bindings c = if is_machine_mode c then [] else node_bindings (expand_nodes c)

abbrev own_port : Config → List ℤ → List ℤ
own_port c ps = if ltb_ℤ (pos 0) c.health_port then c.health_port ∷ ps else ps

-- The health ports that instances listen on, and the nodes that they run other than for a machine.
abbrev pub ports_of : List (Option Config) → List ℤ
ports_of [] = []
ports_of (none ∷ cs) = ports_of cs
ports_of (some c ∷ cs) = own_port c (ports_of cs)

abbrev pub bindings_of : List (Option Config) → List Text
bindings_of [] = []
bindings_of (none ∷ cs) = bindings_of cs
bindings_of (some c ∷ cs) = own_bindings c ++ bindings_of cs

-- The directories that instances name, with the instances.
abbrev pub Owned : Type 0
Owned = List (Text × Text)

abbrev own_dir : Config → Owned → Owned
own_dir c ds =
    let d = trim_space c.kernel.config_dir in if is_empty d then ds else (d, c.instance_id) ∷ ds

abbrev pub dirs_of : List (Option Config) → Owned
dirs_of [] = []
dirs_of (none ∷ cs) = dirs_of cs
dirs_of (some c ∷ cs) = own_dir c (dirs_of cs)

-- Every further instance in the directory has the same identity.
abbrev pub AllAgree : Text → Text → Owned → Type 0
AllAgree d o [] = Unit
AllAgree d o ((e, p) ∷ ds) = ((beq_text e d ≡ false) ⊎ (p ≡ o)) × AllAgree d o ds

-- No two identities share a directory.
abbrev pub OwnersAgree : Owned → Type 0
OwnersAgree [] = Unit
OwnersAgree ((d, o) ∷ ds) = AllAgree d o ds × OwnersAgree ds

-- The map has no other owner for the directories of the list.
abbrev Fits : Dict Text Text → Owned → Type 0
Fits m [] = Unit
Fits m ((d, o) ∷ ds) = ((lookup d m ≡ none) ⊎ (lookup d m ≡ some o)) × Fits m ds

Fits-nil : (ds : Owned) → Fits [] ds
unfolding lookup
Fits-nil [] = tt
Fits-nil ((d, o) ∷ ds) = (inl refl, Fits-nil ds)

Fits-insert :
    (d o : Text) (m : Dict Text Text) (ds : Owned)
    → (lookup d m ≡ none) ⊎ (lookup d m ≡ some o)
    → Fits (insert d o m) ds
    → Fits m ds × AllAgree d o ds
Fits-insert d o m [] h f = (tt, tt)
Fits-insert d o m ((e, p) ∷ ds) h f =
    ground
      (arith, lookup-insert e d o m, Fits-insert d o m ds h f.1, beq_text_iff d e, beq_text_iff e d)

module _ (exists : Text → Bool) where
  claim_nodes_apart :
      (owner : Text) (ns : List Config) (m m' : Dict Text Text) (ys : List Text)
      → claim_nodes exists owner ns m ≡ ok m'
      → AllNew m' ys
      → Distinct ys
      → AllNew m (node_bindings ns ++ ys) × Distinct (node_bindings ns ++ ys)
  unfolding claim_nodes
  claim_nodes_apart owner [] m m' ys h a d = ground (arith, h, a, d)
  claim_nodes_apart owner (n ∷ ns) m m' ys h a d = ground (
    arith,
    claim_nodes_apart owner ns (insert (binding_of n) owner m) m' ys,
    AllNew-insert (binding_of n) owner m (node_bindings ns ++ ys),
  )

  claim_instance_nodes_apart :
      (c : Config) (m m' : Dict Text Text) (ys : List Text)
      → claim_instance_nodes exists c m ≡ ok m'
      → AllNew m' ys
      → Distinct ys
      → AllNew m (own_bindings c ++ ys) × Distinct (own_bindings c ++ ys)
  unfolding claim_instance_nodes
  claim_instance_nodes_apart c m m' ys h a d = elim (Bool-cases (is_machine_mode c)) [
    | inl e ↦ rw e (by_machine e)
    | inr e ↦ rw e (by_nodes e)
  ]
    where
      by_machine : is_machine_mode c ≡ true → AllNew m ys × Distinct ys
      by_machine e = ground (arith, e, h, a, d)

      by_nodes :
          is_machine_mode c ≡ false
          → AllNew m (node_bindings (expand_nodes c) ++ ys)
            × Distinct (node_bindings (expand_nodes c) ++ ys)
      by_nodes e =
          claim_nodes_apart c.instance_id (expand_nodes c) m m' ys (ground (arith, e, h)) a d

  claim_port_apart :
      (c : Config) (m m' : Dict ℤ Text) (ps : List ℤ)
      → claim_port c.instance_id c.health_port m ≡ ok m'
      → AllNew m' ps
      → Distinct ps
      → AllNew m (own_port c ps) × Distinct (own_port c ps)
  unfolding claim_port
  claim_port_apart c m m' ps h a d = ground (arith, AllNew-insert c.health_port c.instance_id m ps)

  claim_dir_apart :
      (c : Config) (m m' : Dict Text Text) (ds : Owned)
      → claim_dir c.instance_id (trim_space c.kernel.config_dir) m ≡ ok m'
      → Fits m' ds
      → OwnersAgree ds
      → Fits m (own_dir c ds) × OwnersAgree (own_dir c ds)
  unfolding claim_dir
  claim_dir_apart c m m' ds h f a =
      let d = trim_space c.kernel.config_dir in
      elim (Option-cases (lookup d m)) [
        | inl e ↦ ground (arith, e, h, f, a, Fits-insert d c.instance_id m ds)
        | inr (o, e) ↦
            ground
              (arith, e, h, f, a, Fits-insert d c.instance_id m ds, beq_text_iff o c.instance_id)
      ]

  -- The turn of one instance is its three claims.
  claim_instance_parts :
      (c : Config) (s s' : Claimed)
      → claim_instance exists c s ≡ ok s'
      → (claim_port c.instance_id c.health_port s.ports ≡ ok s'.ports)
        × ((claim_dir c.instance_id (trim_space c.kernel.config_dir) s.dirs ≡ ok s'.dirs)
            × (claim_instance_nodes exists c s.bindings ≡ ok s'.bindings))
  unfolding claim_instance
  claim_instance_parts c s s' h =
      elim (Result-cases (claim_port c.instance_id c.health_port s.ports)) [
        | inr (e, bad) ↦ ground (arith, bad, h)
        | inl (p, ep) ↦
            elim (Result-cases (claim_dir c.instance_id (trim_space c.kernel.config_dir) s.dirs)) [
              | inr (e, bad) ↦ ground (arith, ep, bad, h)
              | inl (d, ed) ↦ elim (Result-cases (claim_instance_nodes exists c s.bindings)) [
                | inr (e, bad) ↦ ground (arith, ep, ed, bad, h)
                | inl (b, eb) ↦ ground (arith, ep, ed, eb, h)
              ]
            ]
      ]

  -- The three properties, of the instances still to come and of those claimed before.
  abbrev Apart : List (Option Config) → Claimed → Type 0
  Apart cs s =
      (AllNew s.ports (ports_of cs) × Distinct (ports_of cs))
      × ((AllNew s.bindings (bindings_of cs) × Distinct (bindings_of cs))
          × (Fits s.dirs (dirs_of cs) × OwnersAgree (dirs_of cs)))

  claim_all-Apart :
      (cs : List (Option Config)) (s : Claimed) → claim_all exists cs s ≡ none → Apart cs s
  unfolding claim_all
  claim_all-Apart [] s h = ((tt, tt), ((tt, tt), (tt, tt)))
  claim_all-Apart (none ∷ cs) s h = claim_all-Apart cs s h
  claim_all-Apart (some c ∷ cs) s h = elim (Result-cases (claim_instance exists c s)) [
    | inr (e, bad) ↦ absurd (ground (arith, bad, h))
    | inl (s', e) ↦
        let later : claim_all exists cs s' ≡ none = ground (arith, e, h) in
        let rest = claim_all-Apart cs s' later in
        let parts = claim_instance_parts c s s' e in
        (
          claim_port_apart c s.ports s'.ports (ports_of cs) parts.0 rest.0.0 rest.0.1,
          (
            claim_instance_nodes_apart c s.bindings s'.bindings (bindings_of cs) parts.1.1
                rest.1.0.0 rest.1.0.1,
            claim_dir_apart c s.dirs s'.dirs (dirs_of cs) parts.1.0 rest.1.1.0 rest.1.1.1,
          ),
        )
  ]

  -- A layout that is accepted: no two instances listen for health checks on one port, no two nodes
  -- of instances other than machines have one binding, and no two identities share a directory.
  pub validate_startup_layout_apart :
      (cs : List (Option Config))
      → validate_startup_layout exists cs ≡ none
      → Distinct (ports_of cs) × (Distinct (bindings_of cs) × OwnersAgree (dirs_of cs))
  unfolding validate_startup_layout
  validate_startup_layout_apart cs h =
      let a = claim_all-Apart cs (record { ports = []; dirs = []; bindings = [] }) h in
      (a.0.1, (a.1.0.1, a.1.1.1))
