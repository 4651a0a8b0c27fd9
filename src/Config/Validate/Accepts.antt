-- ===== src/Config/Validate/Accepts.antt =====
-- Which configurations `validate` accepts, said without the checks' order.
use xboard_node_win.Common.{
  ℕ, suc, ℤ, pos, ltb_ℤ, ◌≤ℤ◌, Text, bytes, Bool, true, false, if◌then◌else◌, is_empty, Option,
  none, some, List, [], ◌∷◌, ◌≡◌, refl, ◌↔◌, arith, ◌⊎◌, first_error, Keys, insert, int_key,
  text_key, Distinct, AllNew, AllNew-nil, AllNew-insert, beq_text_iff,
}
use xboard_node_win.Config.{
  NodeEntry, MachineConfig, StandaloneUser, StandaloneConfig, Config, is_standalone,
  is_machine_mode,
}
use xboard_node_win.Config.Validate.{
  ConfigError, validate_users, validate_standalone, validate_machine, token_of, entry_error,
  validate_panel, validate_mode, validate,
}

abbrev pub ids_of : List StandaloneUser → List ℤ
ids_of [] = []
ids_of (u ∷ us) = u.id ∷ ids_of us

abbrev pub uuids_of : List StandaloneUser → List Text
uuids_of [] = []
uuids_of (u ∷ us) = u.uuid ∷ uuids_of us

-- Each user has a positive id and a uuid.
abbrev pub AllNamed : List StandaloneUser → Type 0
AllNamed [] = Unit
AllNamed (u ∷ us) = ((ltb_ℤ (pos 0) u.id ≡ true) × (is_empty u.uuid ≡ false)) × AllNamed us

validate_users_lem :
    (i : ℕ) (ids : Keys ℤ) (uuids : Keys Text) (us : List StandaloneUser)
    → (validate_users i ids uuids us ≡ none) ↔ (
        AllNamed us
        × ((AllNew ids (ids_of us) × Distinct (ids_of us))
            × (AllNew uuids (uuids_of us) × Distinct (uuids_of us))))
unfolding validate_users
validate_users_lem i ids uuids [] = ((λ h. (tt, ((tt, tt), (tt, tt)))), (λ h. refl))
validate_users_lem i ids uuids (u ∷ us) = ground (
  arith,
  validate_users_lem (suc i) (insert u.id tt ids) (insert u.uuid tt uuids) us,
  AllNew-insert u.id tt ids (ids_of us),
  AllNew-insert u.uuid tt uuids (uuids_of us),
)

-- `validateStandalone` finds nothing.
abbrev pub StandaloneOk : List NodeEntry → StandaloneConfig → Type 0
StandaloneOk nodes s =
    (is_empty nodes ≡ true)
    × ((is_empty s.node.protocol ≡ false)
        × (((pos 1 ≤ℤ s.node.server_port) × (s.node.server_port ≤ℤ pos 65535))
            × (((pos 0 ≤ℤ s.node.tls) × (s.node.tls ≤ℤ pos 2))
                × ((is_empty s.users ≡ false)
                    × (AllNamed s.users
                        × (Distinct (ids_of s.users) × Distinct (uuids_of s.users)))))))

standalone_lem :
    (nodes : List NodeEntry) (s : StandaloneConfig) (c : Config)
    → c.nodes ≡ nodes
    → c.standalone ≡ some s
    → (validate_standalone c ≡ none) ↔ StandaloneOk nodes s
unfolding validate_standalone
standalone_lem nodes s c n e =
    rw (e, n)
      (ground (
        arith,
        validate_users_lem 0 [] [] s.users,
        AllNew-nil {0, 0} {K = ℤ} Unit (ids_of s.users),
        AllNew-nil {0, 0} {K = Text} Unit (uuids_of s.users),
      ))

abbrev pub AllPositive : List NodeEntry → Type 0
AllPositive [] = Unit
AllPositive (n ∷ ns) = (ltb_ℤ (pos 0) n.node_id ≡ true) × AllPositive ns

entries_lem : (i : ℕ) (ns : List NodeEntry) → (first_error entry_error i ns ≡ none) ↔ AllPositive ns
unfolding first_error
entries_lem i [] = ((λ h. tt), (λ h. refl))
entries_lem i (n ∷ ns) = ground (arith, entries_lem (suc i) ns)

-- What a node of the panel needs.
abbrev pub PanelOk : Config → Type 0
PanelOk c =
    (is_empty c.panel.url ≡ false)
    × ((is_empty c.panel.token ≡ false)
        × (((is_empty c.nodes ≡ false) ⊎ (pos 1 ≤ℤ c.panel.node_id)) × AllPositive c.nodes))

panel_lem : (c : Config) → (validate_panel c ≡ none) ↔ PanelOk c
unfolding validate_panel
panel_lem c = ground (arith, entries_lem 0 c.nodes)

-- What a machine needs.
abbrev pub MachineOk : Config → Text → Type 0
MachineOk c token =
    (is_empty c.panel.url ≡ false) × ((is_empty token ≡ false) × (is_empty c.nodes ≡ true))

machine_lem : (c : Config) (t : Text) → (validate_machine c t ≡ none) ↔ MachineOk c t
unfolding validate_machine
machine_lem c t = ground arith

-- The checks by mode; an enabled standalone section wins over a machine.
abbrev pub NodeOk : Option MachineConfig → Config → Type 0
NodeOk none c = PanelOk c
NodeOk (some m) c = if ltb_ℤ (pos 0) m.machine_id then MachineOk c m.token else PanelOk c

abbrev pub ModeOk : Option StandaloneConfig → Config → Type 0
ModeOk none c = NodeOk c.machine c
ModeOk (some s) c = if s.enabled then StandaloneOk c.nodes s else NodeOk c.machine c

-- What every configuration needs.
abbrev pub SharedOk : Config → Type 0
SharedOk c =
    ((c.kernel.kind ≡ bytes "singbox") ⊎ (c.kernel.kind ≡ bytes "xray"))
    × (((c.cert.auto_tls ≡ false) ⊎ (is_empty c.cert.domain ≡ false))
        × ((pos 0 ≤ℤ c.node.push_interval) × (pos 0 ≤ℤ c.node.pull_interval)))

choose_lem :
    (b : Bool) {x y : Option ConfigError} {A B : Type 0}
    → (x ≡ none) ↔ A
    → (y ≡ none) ↔ B
    → ((if b then x else y) ≡ none) ↔ (if b then A else B)
choose_lem true a b = a
choose_lem false a b = b

node_lem :
    (c : Config) (m : Option MachineConfig)
    → ((if elim m [ none ↦ false | some m ↦ ltb_ℤ (pos 0) m.machine_id ]
          then validate_machine c (token_of m)
          else validate_panel c)
        ≡ none)
      ↔ NodeOk m c
node_lem c none = panel_lem c
node_lem c (some m) = choose_lem (ltb_ℤ (pos 0) m.machine_id) (machine_lem c m.token) (panel_lem c)

mode_by :
    (c : Config) (o : Option StandaloneConfig)
    → c.standalone ≡ o
    → ((if elim o [ none ↦ false | some s ↦ s.enabled ]
          then validate_standalone c
          else (if is_machine_mode c
              then validate_machine c (token_of c.machine)
              else validate_panel c))
        ≡ none)
      ↔ ModeOk o c
unfolding is_machine_mode
mode_by c none e = node_lem c c.machine
mode_by c (some s) e =
    choose_lem s.enabled (standalone_lem c.nodes s c refl e) (node_lem c c.machine)

mode_lem : (c : Config) → (validate_mode c ≡ none) ↔ ModeOk c.standalone c
unfolding validate_mode is_standalone
mode_lem c = mode_by c c.standalone refl

-- `validate` accepts exactly the configurations that meet, in the mode that they select, the
-- conditions of that mode, and name a known kernel, a domain if auto_tls is on, and no negative interval.
pub validate_lem : (c : Config) → (validate c ≡ none) ↔ (ModeOk c.standalone c × SharedOk c)
unfolding validate
validate_lem c = ground (
  arith,
  mode_lem c,
  beq_text_iff c.kernel.kind (bytes "singbox"),
  beq_text_iff c.kernel.kind (bytes "xray"),
)
