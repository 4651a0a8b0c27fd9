-- ===== src/Config/Instances.antt =====
-- The identities of instances: `normalizeBaseURL`, `AutoInstanceID`, `assignInstanceIDs` and
-- `NormalizeInstances` of internal/config/config.go. What `url.Parse` and SHA-1 in hexadecimal
-- answer are parameters.
pub mod Slug
use xboard_node_win.Common.{
  ℕ, suc, zero, ℤ, pos, Text, bytes, text_ltb, sort, beq_text, Bool, true, false, not, ◌&&◌, ◌||◌,
  if◌then◌else◌, leb, ltb, ◌==◌, is_empty, length, trim_space, trim, to_lower, trim_suffix,
  join_texts, itoa, Option, none, some, List, [], ◌∷◌, map, ◌++◌, ◌+◌, Result, ok, error,
}
use xboard_node_win.Config.{
  NodeEntry, MachineConfig, Config, RootConfig, is_standalone, is_machine_mode,
}

-- What the source reads of a `url.URL`.
pub record Url : Type 0 where
  pub scheme : Text
  pub host : Text
  pub escaped_path : Text

-- What an instance's identity is made of: the locals `mode`, `target` and `baseURL`.
pub record Identity : Type 0 where
  pub mode : Text
  pub target : Text
  pub address : Text

abbrev pub is_slug_char : ℕ → Bool
is_slug_char c = (leb 97 c && leb c 122) || (leb 48 c && leb c 57)

-- The loop over the characters; `last_dash` says whether a dash was written last.
unfoldable pub slug_loop : Bool → Text → Text
slug_loop last_dash [] = []
slug_loop last_dash (c ∷ s) =
    let rest = slug_loop (not (is_slug_char c)) s in
    if is_slug_char c then c ∷ rest else (if last_dash then rest else 45 ∷ rest)

abbrev pub is_dash : ℕ → Bool
is_dash c = c == 45

abbrev pub is_slash : ℕ → Bool
is_slash c = c == 47

abbrev pub take : ℕ → Text → Text
take zero s = []
take (suc n) [] = []
take (suc n) (c ∷ s) = c ∷ take n s

-- The slug of a host and path.
unfoldable pub slug_of : Text → Text
slug_of base =
    let s = trim is_dash (slug_loop false (to_lower base)) in
    let s' = if is_empty s then bytes "panel" else s in
    if ltb 48 (length s') then trim is_dash (take 48 s') else s'

-- `pathPart != "" && pathPart != "/"`
abbrev has_path : Text → Bool
has_path p = not (is_empty p) && not (beq_text p (bytes "/"))

-- The normalized address and the slug; `none` is the error.
unfoldable pub normalize_url : Url → Option (Text × Text)
normalize_url u =
    if is_empty u.scheme || is_empty u.host
    then none
    else (let host = to_lower u.host in
        let path = trim_suffix 47 u.escaped_path in
        some (
          to_lower u.scheme ++ bytes "://" ++ host ++ (if has_path path then path else []),
          slug_of (if has_path path then host ++ 45 ∷ trim is_slash path else host),
        ))

module _ (parse_url : Text → Option Url) (sha1_hex : Text → Text) where
  -- `normalizeBaseURL`
  unfoldable pub normalize_base_url : Text → Option (Text × Text)
  normalize_base_url raw =
      if beq_text raw (bytes "standalone")
      then some (raw, raw)
      else elim (parse_url (trim_space raw)) [ none ↦ none | some u ↦ normalize_url u ]

  abbrev node_ids : List NodeEntry → List Text
  node_ids [] = []
  node_ids (n ∷ ns) = itoa n.node_id ∷ node_ids ns

  abbrev machine_target : Option MachineConfig → Text
  machine_target none = []
  machine_target (some m) = itoa m.machine_id

  -- The mode, the target and the address that an identity is made of.
  unfoldable pub identity : Config → Identity
  identity c =
      let node : Text → Identity =
        λ t. record { mode = bytes "node"; target = t; address = trim_space c.panel.url } in
      if is_standalone c
      then record {
        mode = bytes "standalone";
        target = bytes "local";
        address = bytes "standalone";
      }
      else (if is_machine_mode c
          then record {
            mode = bytes "machine";
            target = machine_target c.machine;
            address = trim_space c.panel.url;
          }
          else (if is_empty c.nodes
              then node (itoa c.panel.node_id)
              else node (join_texts 44 (sort text_ltb (node_ids c.nodes)))))

  -- The identity's text, from the slug and the hash of the key.
  abbrev format_id : Identity → Text × Text → Text
  format_id i (normalized, slug) =
      let key = normalized ++ 124 ∷ i.mode ++ 124 ∷ i.target in
      slug ++ 45 ∷ i.mode ++ 45 ∷ i.target ++ 45 ∷ take 6 (sha1_hex key)

  -- `AutoInstanceID`; `none` is the error.
  unfoldable pub auto_instance_id : Config → Option Text
  auto_instance_id c =
      let i = identity c in
      elim (normalize_base_url i.address) [ none ↦ none | some r ↦ some (format_id i r) ]

  abbrev with_id : Config → Option Config
  with_id c =
      if is_empty c.instance_id
      then elim (auto_instance_id c) [
        | none ↦ none
        | some id ↦ some (record c { instance_id = id })
      ]
      else some c

  abbrev cons_id : ℕ → Option Config → Result ℕ (List Config) → Result ℕ (List Config)
  cons_id i none rest = error i
  cons_id i (some c) (ok cs) = ok (c ∷ cs)
  cons_id i (some c) (error j) = error j

  -- The loop of `assignInstanceIDs` from index `i`; the error is the index of the first instance
  -- whose address is invalid.
  unfoldable pub assign_instance_ids : ℕ → List Config → Result ℕ (List Config)
  assign_instance_ids i [] = ok []
  assign_instance_ids i (c ∷ cs) = cons_id i (with_id c) (assign_instance_ids (suc i) cs)

  -- `NormalizeInstances`; `none` is the error.
  unfoldable pub normalize_instances : RootConfig → Option (List Config)
  normalize_instances rc =
      if is_empty rc.instances
      then elim (auto_instance_id rc.config) [
        | none ↦ none
        | some id ↦ some (record rc.config { instance_id = id } ∷ [])
      ]
      else elim (assign_instance_ids 0 rc.instances) [ ok cs ↦ some cs | error i ↦ none ]
