-- ===== src/Config/Defaults.antt =====
-- `setDefaultsFrom` of internal/config/config.go.
use xboard_node_win.Common.{
  is_rooted, push_parts, split, join_texts, reverse_onto, dot_if_empty, pos, Text, bytes, Bool,
  true, false, if◌then◌else◌, is_empty, clean, path_of, join, [], ◌∷◌, ◌≡◌, refl, ◌++◌,
}
use xboard_node_win.Model.NodeSpec
use xboard_node_win.Config.{LogConfig, NodeConfig, WsConfig, KernelConfig, Config}
use xboard_node_win.Config.Inherit.{or_text, or_int}
use xboard_node_win.Config.Inherit.Again.{again}

unfoldable pub default_kernel : Text → KernelConfig → KernelConfig
default_kernel base k =
    let config_dir = or_text k.config_dir base in
    record k {
      kind = or_text k.kind (bytes "singbox");
      config_dir = config_dir;
      geo_data_dir = or_text k.geo_data_dir config_dir;
      log_level = or_text k.log_level (bytes "warn");
    }

unfoldable pub default_log : LogConfig → LogConfig
default_log l = record {
  level = or_text l.level (bytes "info");
  output = or_text l.output (bytes "stdout");
}

unfoldable pub default_cert : Text → NodeSpec.CertConfig → NodeSpec.CertConfig
default_cert config_dir c = record c {
  cert_dir = or_text c.cert_dir (join config_dir (bytes "certs"));
  http_port = or_int c.http_port (pos 80);
}

unfoldable pub default_ws : WsConfig → WsConfig
default_ws w = record {
  status_interval = or_int w.status_interval (pos 10);
  handshake_timeout = or_int w.handshake_timeout (pos 15);
  backoff_initial = or_int w.backoff_initial (pos 1);
  backoff_max = or_int w.backoff_max (pos 60);
  discovery_interval = or_int w.discovery_interval (pos 300);
}

unfoldable pub default_node : NodeConfig → NodeConfig
default_node n = record n {
  track_interval = or_int n.track_interval (pos 10);
  device_report_interval = or_int n.device_report_interval (pos 30);
}

-- `Config.setDefaultsFrom`
unfoldable pub set_defaults_from : Text → Config → Config
set_defaults_from base c =
    let kernel = default_kernel base c.kernel in
    record c {
      kernel = kernel;
      log = default_log c.log;
      cert = default_cert kernel.config_dir c.cert;
      ws = default_ws c.ws;
      node = default_node c.node;
    }

or_text_kept : (c x y : Text) → is_empty x ≡ false → or_text (or_text c x) y ≡ or_text c x
or_text_kept [] [] y h = cc
or_text_kept [] (a ∷ x) y h = refl
or_text_kept (a ∷ c) x y h = refl

is_empty-or_text : (c x : Text) → is_empty x ≡ false → is_empty (or_text c x) ≡ false
is_empty-or_text [] x h = h
is_empty-or_text (a ∷ c) x h = refl

is_empty-clean : (p : Text) → is_empty (clean p) ≡ false
unfolding clean path_of
is_empty-clean p =
    by_root (is_rooted p)
      (join_texts 47 (reverse_onto [] (push_parts (is_rooted p) [] (split 47 p))))
  where
    by_root : (b : Bool) (s : Text) → is_empty (if b then 47 ∷ s else dot_if_empty s) ≡ false
    by_root true s = refl
    by_root false [] = refl
    by_root false (c ∷ s) = refl

is_empty-join : (a b : Text) → is_empty a ≡ false → is_empty (join a b) ≡ false
unfolding join
is_empty-join [] b h = cc
is_empty-join (x ∷ a) [] h = is_empty-clean (x ∷ a)
is_empty-join (x ∷ a) (y ∷ b) h = is_empty-clean (x ∷ a ++ 47 ∷ y ∷ b)

default_kernel_again :
    (base other : Text) (k : KernelConfig)
    → is_empty base ≡ false
    → default_kernel other (default_kernel base k) ≡ default_kernel base k
unfolding default_kernel
default_kernel_again base other k h = rw (or_text_kept k.config_dir base other h) (simp again)

default_log_again : (l : LogConfig) → default_log (default_log l) ≡ default_log l
unfolding default_log
default_log_again l = simp again

default_cert_again :
    (d : Text) (c : NodeSpec.CertConfig) → default_cert d (default_cert d c) ≡ default_cert d c
unfolding default_cert
default_cert_again d c = simp again

default_ws_again : (w : WsConfig) → default_ws (default_ws w) ≡ default_ws w
unfolding default_ws
default_ws_again w = simp again

default_node_again : (n : NodeConfig) → default_node (default_node n) ≡ default_node n
unfolding default_node
default_node_again n = simp again

-- The defaults are set once: setting them again, from any other directory, changes nothing, if the
-- first directory is not empty.
pub set_defaults_from_again :
    (base other : Text) (c : Config)
    → is_empty base ≡ false
    → set_defaults_from other (set_defaults_from base c) ≡ set_defaults_from base c
unfolding set_defaults_from
set_defaults_from_again base other c h =
    rw
      (
        default_kernel_again base other c.kernel h,
        default_log_again c.log,
        default_cert_again (default_kernel base c.kernel).config_dir c.cert,
        default_ws_again c.ws,
        default_node_again c.node,
      )
      refl
