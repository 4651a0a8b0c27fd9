-- ===== src/Service/Events/Again.antt =====
-- What internal/service/service.go does with a configuration that it has taken before.
use xboard_node_win.Common.{
  Text, beq_text, beq_text_iff, Bool, true, false, ◌&&◌, ◌||◌, if◌then◌else◌, if_true, is_empty,
  is_some, from_option, Option, none, some, List, [], ◌≡◌, refl, sym, ◌∙◌,
}
use xboard_node_win.Model.{UserSpec}
use xboard_node_win.Model.NodeSpec.{NodeSpec, CertConfig}
use xboard_node_win.SpeedTracker.{RateLib}
use xboard_node_win.Service.Events.{
  Oracle, ServiceState, answered_cert, override_cert, apply_node_cert, apply_remote_overrides,
  apply_changes, take_config, is_valid, handle_config,
}

module _ (lib : RateLib) (user_hash : List UserSpec → Text) (config_hash : NodeSpec → Text) where
  abbrev State : Type 0
  State = ServiceState lib user_hash config_hash

  answered_cert-hash :
      (r : Option Bool) (c : CertConfig) (s : State)
      → (answered_cert lib user_hash config_hash r c s).1.last_config_hash ≡ s.last_config_hash
  answered_cert-hash none c s = refl
  answered_cert-hash (some changed) c s = refl

  override_cert-hash :
      (o : Oracle) (n : NodeSpec) (c : Option CertConfig) (s : State)
      → (override_cert lib user_hash config_hash o n c s).1.last_config_hash ≡ s.last_config_hash
  unfolding apply_node_cert
  override_cert-hash o n none s = refl
  override_cert-hash o n (some c) s = answered_cert-hash o.reconfigures c s

  take_config-hash :
      (o : Oracle) (n : NodeSpec) (hash : Text) (s : State)
      → (take_config lib user_hash config_hash o n hash s).last_config_hash ≡ hash
  unfolding take_config apply_remote_overrides
  take_config-hash o n hash s =
      let kept : State = record s { last_config = some n; last_config_hash = hash } in
      let level = if is_empty n.kernel_log_level then s.kernel_log_level else n.kernel_log_level in
      override_cert-hash o n n.cert_config (record kept { kernel_log_level = level })

  same_hash :
      (b : Bool) (x y : State) (h : Text)
      → x.last_config_hash ≡ h
      → y.last_config_hash ≡ h
      → (if b then x else y).last_config_hash ≡ h
  same_hash true x y h p q = p
  same_hash false x y h p q = q

  apply_changes-hash :
      (o : Oracle) (s : State)
      → (apply_changes lib user_hash config_hash o s).last_config_hash ≡ s.last_config_hash
  unfolding apply_changes
  apply_changes-hash o s =
      let us = s.users.last_users in
      let stopped : State = record s { applied_users = none } in
      let ran : State = record s { applied_config = s.last_config; applied_users = us } in
      let starts = (o.running && o.reloads) || o.starts in
      let started : State = if starts then ran else s in
      same_hash (is_empty (from_option [] us)) stopped
        (if is_some s.last_config then started else s) s.last_config_hash refl
        (same_hash (is_some s.last_config) started s s.last_config_hash
          (same_hash starts ran s s.last_config_hash refl refl) refl)

  -- A configuration with the hash of the kept one is ignored.
  handle_config-known :
      (o : Oracle) (n : NodeSpec) (s : State)
      → s.last_config_hash ≡ config_hash n
      → handle_config lib user_hash config_hash o (some n) s ≡ s
  unfolding handle_config
  handle_config-known o n s h =
      if_true (beq_text (config_hash n) s.last_config_hash) s
        (if is_valid lib user_hash config_hash o n
          then apply_changes lib user_hash config_hash o
              (take_config lib user_hash config_hash o n (config_hash n) s)
          else s)
        ((beq_text_iff (config_hash n) s.last_config_hash).1 (sym h))

  new_by :
      (b v : Bool) (x y : State) (h : Text)
      → (b ≡ true → x.last_config_hash ≡ h)
      → v ≡ true
      → y.last_config_hash ≡ h
      → (if b then x else (if v then y else x)).last_config_hash ≡ h
  new_by true v x y h k e p = k refl
  new_by false true x y h k e p = p
  new_by false false x y h k e p = cc

  handle_config-new :
      (o : Oracle) (n : NodeSpec) (s : State)
      → is_valid lib user_hash config_hash o n ≡ true
      → (handle_config lib user_hash config_hash o (some n) s).last_config_hash ≡ config_hash n
  unfolding handle_config
  handle_config-new o n s v =
      let taken = take_config lib user_hash config_hash o n (config_hash n) s in
      new_by (beq_text (config_hash n) s.last_config_hash) (is_valid lib user_hash config_hash o n)
        s (apply_changes lib user_hash config_hash o taken) (config_hash n)
        (λ e. sym ((beq_text_iff (config_hash n) s.last_config_hash).0 e)) v
        (apply_changes-hash o taken ∙ take_config-hash o n (config_hash n) s)

  -- A valid configuration that arrives a second time in a row changes nothing, whatever the kernel
  -- answered the first time: one that could neither be reloaded nor started is not tried again.
  pub handle_config_again :
      (o1 o2 : Oracle) (n : NodeSpec) (s : State)
      → is_valid lib user_hash config_hash o1 n ≡ true
      → let s' = handle_config lib user_hash config_hash o1 (some n) s in
        handle_config lib user_hash config_hash o2 (some n) s' ≡ s'
  handle_config_again o1 o2 n s v =
      handle_config-known o2 n (handle_config lib user_hash config_hash o1 (some n) s)
        (handle_config-new o1 n s v)
