-- ===== src/Validation/Outbounds/Settings.antt =====
-- The settings of an outbound that internal/model/custom_outbound_validate.go accepts.
use xboard_node_win.Common.{
  Dict, from_option, Bool-cases, Option-cases, Result-cases, ℕ, ◌^◌, ◌/◌, ◌%◌, ◌==◌, ltb, atoi, ℤ,
  pos, negsuc, ◌≤ℤ◌, Text, bytes, lookup, text_key, trim_space, is_empty, Bool, true, false, ◌&&◌,
  if◌then◌else◌, Option, none, some, List, [], ◌∷◌, ok, error, fail_if, or_else, ◌≡◌, refl, inl,
  inr, ◌↔◌, arith,
}
use xboard_node_win.Model.Value.{
  Value, nil_value, bool, int, float, not_finite, string, array, object, AnyMap,
}
use xboard_node_win.Validation.Outbounds.{
  not_integer, port_in_range, float_port, parsed_port, as_port, validate_outbound_settings,
}
use xboard_node_win.Validation.Outbounds.{
  reserved_error, blank_error, port_error, blank_setting, reserved_keys, filled_fields,
  settings_required,
}

abbrev pub IsPort : ℤ → Type 0
IsPort p = (pos 1 ≤ℤ p) × (p ≤ℤ pos 65535)

port_in_range_bounds : (v p : ℤ) → port_in_range v ≡ ok p → IsPort p
port_in_range_bounds v p h = ground (arith, h)

by_float :
    (b : Bool) (v p : ℤ) → (if b then port_in_range v else error not_integer) ≡ ok p → IsPort p
by_float true v p h = port_in_range_bounds v p h
by_float false v p h = cc

parsed_port_bounds : (o : Option ℤ) (p : ℤ) → parsed_port o ≡ ok p → IsPort p
parsed_port_bounds none p h = cc
parsed_port_bounds (some v) p h = port_in_range_bounds v p h

float_port_bounds : (m : ℤ) (k : ℕ) (p : ℤ) → float_port m k ≡ ok p → IsPort p
float_port_bounds (pos m) k p h =
    by_float ((m % 2 ^ k == 0) && ltb (m / 2 ^ k) (2 ^ 63)) (pos (m / 2 ^ k)) p h
float_port_bounds (negsuc m) k p h = ground (arith, h)

-- A port that is read from any setting is between 1 and 65535.
pub as_port_bounds : (v : Value) (p : ℤ) → as_port v ≡ ok p → IsPort p
unfolding as_port
as_port_bounds nil_value p h = cc
as_port_bounds (bool b) p h = cc
as_port_bounds (int v) p h = port_in_range_bounds v p h
as_port_bounds (float m k) p h = float_port_bounds m k p h
as_port_bounds not_finite p h = cc
as_port_bounds (string s) p h = parsed_port_bounds (atoi (trim_space s)) p h
as_port_bounds (array vs) p h = cc
as_port_bounds (object es) p h = cc

-- A setting is missing, or no blank string.
abbrev pub NotBlank : Option Value → Type 0
NotBlank none = Unit
NotBlank (some nil_value) = Unit
NotBlank (some (bool b)) = Unit
NotBlank (some (int v)) = Unit
NotBlank (some (float m k)) = Unit
NotBlank (some not_finite) = Unit
NotBlank (some (string s)) = is_empty (trim_space s) ≡ false
NotBlank (some (array vs)) = Unit
NotBlank (some (object es)) = Unit

-- A setting is missing, or a port.
abbrev pub PortOk : Option Value → Type 0
PortOk none = Unit
PortOk (some v) = (p : ℤ) × ((as_port v ≡ ok p) × IsPort p)

abbrev pub AllMissing : Dict Text Value → List Text → Type 0
AllMissing s [] = Unit
AllMissing s (k ∷ ks) = (lookup k s ≡ none) × AllMissing s ks

abbrev pub AllFilled : Dict Text Value → List Text → Type 0
AllFilled s [] = Unit
AllFilled s (k ∷ ks) = NotBlank (lookup k s) × AllFilled s ks

-- There are settings; four names are not among them, nine are not blank, and two are ports.
abbrev pub SettingsOk : AnyMap → Type 0
SettingsOk settings =
    let s = from_option [] settings in
    (is_empty s ≡ false)
    × (AllMissing s (bytes "tag" ∷ bytes "protocol" ∷ bytes "proxy_tag" ∷ bytes "proxyTag" ∷ [])
        × (AllFilled s (
              bytes "server"
              ∷ bytes "uuid"
              ∷ bytes "password"
              ∷ bytes "method"
              ∷ bytes "cipher"
              ∷ bytes "private_key"
              ∷ bytes "secret_key"
              ∷ bytes "privateKey"
              ∷ bytes "secretKey"
              ∷ [])
            × (PortOk (lookup (bytes "server_port") s) × PortOk (lookup (bytes "serverPort") s))))

reserved_lem :
    (i : ℕ) (s : Dict Text Value) (ks : List Text)
    → (reserved_error i s ks ≡ none) ↔ AllMissing s ks
unfolding reserved_error
reserved_lem i s [] = ((λ h. tt), λ h. refl)
reserved_lem i s (k ∷ ks) = elim (Option-cases (lookup k s)) [
  | inl e ↦ ground (arith, e, reserved_lem i s ks)
  | inr (v, e) ↦ ground (arith, e)
]

not_blank_lem : (o : Option Value) → (blank_setting o ≡ false) ↔ NotBlank o
not_blank_lem none = ((λ h. tt), λ h. refl)
not_blank_lem (some nil_value) = ((λ h. tt), λ h. refl)
not_blank_lem (some (bool b)) = ((λ h. tt), λ h. refl)
not_blank_lem (some (int v)) = ((λ h. tt), λ h. refl)
not_blank_lem (some (float m k)) = ((λ h. tt), λ h. refl)
not_blank_lem (some not_finite) = ((λ h. tt), λ h. refl)
not_blank_lem (some (string s)) = ((λ h. h), λ h. h)
not_blank_lem (some (array vs)) = ((λ h. tt), λ h. refl)
not_blank_lem (some (object es)) = ((λ h. tt), λ h. refl)

filled_lem :
    (i : ℕ) (s : Dict Text Value) (ks : List Text) → (blank_error i s ks ≡ none) ↔ AllFilled s ks
unfolding blank_error
filled_lem i s [] = ((λ h. tt), λ h. refl)
filled_lem i s (k ∷ ks) =
    let n = not_blank_lem (lookup k s) in
    let r = filled_lem i s ks in
    elim (Bool-cases (blank_setting (lookup k s))) [
      | inl e ↦ ((λ h. absurd (ground (arith, e, h))), λ h. absurd (ground (arith, e, n.1 h.0)))
      | inr e ↦ (
        (λ h. (n.0 e, r.0 (ground (arith, e, h)))),
        λ h. let rest = r.1 h.1 in ground (arith, e, rest),
      )
    ]

port_lem : (i : ℕ) (field : Text) (o : Option Value) → (port_error i field o ≡ none) ↔ PortOk o
port_lem i field none = ((λ h. tt), λ h. refl)
port_lem i field (some v) = elim (Result-cases (as_port v)) [
  | inl (p, e) ↦ ((λ h. (p, (e, as_port_bounds v p e))), λ h. ground (arith, e))
  | inr (x, e) ↦ ((λ h. absurd (ground (arith, e, h))), λ h. absurd (ground (arith, e, h.1.0)))
]

abbrev NoneOf : {E : Type 0} → Bool → Option E → Option E → Option E → Option E → Type 0
NoneOf b r f p q = (b ≡ false) × ((r ≡ none) × ((f ≡ none) × ((p ≡ none) × (q ≡ none))))

checks_lem :
    {E : Type 0}
    → (b : Bool) (x : E) (r f p q : Option E)
    → (fail_if b x (or_else r (or_else f (or_else p q))) ≡ none) ↔ NoneOf b r f p q
checks_lem true x r f p q = ((λ h. absurd (cc)), λ h. absurd (cc))
checks_lem false x (some e) f p q = ((λ h. absurd (cc)), λ h. absurd (cc))
checks_lem false x none (some e) p q = ((λ h. absurd (cc)), λ h. absurd (cc))
checks_lem false x none none (some e) q = ((λ h. absurd (cc)), λ h. absurd (cc))
checks_lem false x none none none q = ((λ h. (refl, (refl, (refl, (refl, h))))), λ h. h.1.1.1.1)

pub settings_lem : (i : ℕ) (m : AnyMap) → (validate_outbound_settings i m ≡ none) ↔ SettingsOk m
unfolding validate_outbound_settings
settings_lem i m =
    let s = from_option [] m in
    let r = reserved_lem i s reserved_keys in
    let f = filled_lem i s filled_fields in
    let p = port_lem i (bytes "server_port") (lookup (bytes "server_port") s) in
    let q = port_lem i (bytes "serverPort") (lookup (bytes "serverPort") s) in
    let c =
      checks_lem (is_empty s) (settings_required i) (reserved_error i s reserved_keys)
        (blank_error i s filled_fields)
        (port_error i (bytes "server_port") (lookup (bytes "server_port") s))
        (port_error i (bytes "serverPort") (lookup (bytes "serverPort") s)) in
    (
      (λ h. let d = c.0 h in (d.0, (r.0 d.1.0, (f.0 d.1.1.0, (p.0 d.1.1.1.0, q.0 d.1.1.1.1))))),
      λ h. c.1 (h.0, (r.1 h.1.0, (f.1 h.1.1.0, (p.1 h.1.1.1.0, q.1 h.1.1.1.1)))),
    )
