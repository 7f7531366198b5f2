-- ===== src/Config/Kept.antt =====
-- The files that prepareRuntime leaves as they are, whatever fails.
use Prim.Native.String.{String}
use text.Mathlib.Text.{◌==◌}
use text.Mathlib.TextEquality.{eq_iff}
use vela_dns.Base.{
  ◌≡◌, refl, false, Option, none, some, List, [], ◌∷◌, arith, All, Bool-cases, inl, inr,
}
use vela_dns.Text.{Bytes}
use vela_dns.Config.{Config}
use vela_dns.Config.Files.{
  Call, stat, read_file, mkdir, lookup_user, chown, Os, Problem, Files, Action, after, ◌>>◌, call,
  temp, copy_content, copy_file, write_rendered, in_dir, prepare_list, prepare_lists,
  domain_list_specs, prepare_domain_lists,
}
use vela_dns.Config.Prepare.{
  call_each, copy_key, root_key_source, root_key_candidates, rendering, render, checking,
  check_config, remove_pids, prepare_files, render_configs, directories, owned, prepare_runtime,
  verbosity_change, level_change, foreign_source, foreign_change, unbound_runtime_config,
  unbound_recursive_runtime_config, mosdns_runtime_config, foreign_runtime_config,
}

-- An existing file at `p` is as it was after the operation, with an error or without.
unfoldable pub Keeps : String → Action → Type 0
Keeps p m = (f : Files) (c : Bytes) → f p ≡ some c → (m f).0 p ≡ some c

after-kept :
    (p : String) (next : Action) (o : Files × Option Problem) (c : Bytes)
    → Keeps p next
    → o.0 p ≡ some c
    → (after next o).0 p ≡ some c
unfolding Keeps
after-kept p next (f, none) c k h = k f c h
after-kept p next (f, some e) c k h = h

pub Keeps-seq :
    (p : String) (first second : Action)
    → Keeps p first
    → Keeps p second
    → Keeps p (first >> second)
unfolding Keeps
Keeps-seq p first second a b f c h = after-kept p second (first f) c b (a f c h)

Keeps-call : (p : String) (os : Os) (k : Call) (path : String) → Keeps p (call os k path)
unfolding Keeps
Keeps-call p os k path f c h = ground arith

Keeps-call_each :
    (p : String) (os : Os) (k : Call) (paths : List String) → Keeps p (call_each os k paths)
Keeps-call_each p os k [] = unfold Keeps in λ f c h. h
Keeps-call_each p os k (path ∷ paths) =
    Keeps-seq p (call os k path) (call_each os k paths) (Keeps-call p os k path)
      (Keeps-call_each p os k paths)

-- What a copy to another path does to the file.
copied :
    (p : String) (os : Os) (src dst : String) (o : Option Bytes) (f : Files) (c : Bytes)
    → (dst == p) ≡ false
    → (temp dst == p) ≡ false
    → f p ≡ some c
    → (copy_content os src dst o f).0 p ≡ some c
copied p os src dst none f c d t h = h
copied p os src dst (some content) f c d t h = ground arith

Keeps-copy_file :
    (p : String) (os : Os) (src dst : String)
    → (dst == p) ≡ false
    → (temp dst == p) ≡ false
    → Keeps p (copy_file os src dst)
unfolding Keeps copy_file
Keeps-copy_file p os src dst d t f c h = copied p os src dst (f src) f c d t h

-- A list is only written where there is none, so that any existing file may be in its place.
other_path :
    (p dst : String) (f : Files) (c : Bytes) → f dst ≡ none → f p ≡ some c → (dst == p) ≡ false
other_path p dst f c n h = elim (Bool-cases (dst == p)) [
  | inl same ↦ let e : dst ≡ p = (eq_iff dst p).0 same in absurd (cc)
  | inr other ↦ other
]

listed :
    (p : String) (os : Os) (src dst : String) (o : Option Bytes) (f : Files) (c : Bytes)
    → (temp dst == p) ≡ false
    → f dst ≡ o
    → f p ≡ some c
    → (prepare_list os src dst o f).0 p ≡ some c
unfolding copy_file
listed p os src dst (some x) f c t e h = h
listed p os src dst none f c t e h = copied p os src dst (f src) f c (other_path p dst f c e h) t h

Keeps-prepare_lists :
    (p : String) (os : Os) (data_path defaults : String) (names : List String)
    → All (λ name. (temp (in_dir data_path name) == p) ≡ false) names
    → Keeps p (prepare_lists os data_path defaults names)
unfolding prepare_lists
Keeps-prepare_lists p os data_path defaults [] a = unfold Keeps in λ f c h. h
Keeps-prepare_lists p os data_path defaults (name ∷ names) (t, a) =
    let dst = in_dir data_path name in
    let one : Action = λ g. prepare_list os (in_dir defaults name) dst (g dst) g in
    Keeps-seq p (call os stat dst >> one) (prepare_lists os data_path defaults names)
      (Keeps-seq p (call os stat dst) one (Keeps-call p os stat dst)
        (unfold Keeps in λ f c h. listed p os (in_dir defaults name) dst (f dst) f c t refl h))
      (Keeps-prepare_lists p os data_path defaults names a)

rendered :
    (p : String) (os : Os) (source target : String) (change : Bytes → Bytes) (o : Option Bytes)
    (f : Files) (c : Bytes)
    → (target == p) ≡ false
    → (temp target == p) ≡ false
    → f p ≡ some c
    → (rendering os source target change o f).0 p ≡ some c
unfolding write_rendered
rendered p os source target change none f c a t h = h
rendered p os source target change (some template) f c a t h = ground arith

pub Keeps-render :
    (p : String) (os : Os) (source target : String) (change : Bytes → Bytes)
    → (target == p) ≡ false
    → (temp target == p) ≡ false
    → Keeps p (render os source target change)
unfolding render
Keeps-render p os source target change a t =
    Keeps-seq p (call os read_file source) (λ f. rendering os source target change (f source) f)
      (Keeps-call p os read_file source)
      (unfold Keeps in λ f c h. rendered p os source target change (f source) f c a t h)

pub Keeps-check_config : (p : String) (os : Os) (path : String) → Keeps p (check_config os path)
unfolding Keeps check_config
Keeps-check_config p os path f c h = checked (f path)
  where
    checked : (o : Option Bytes) → (checking os path o f).0 p ≡ some c
    checked none = h
    checked (some x) = ground arith

pub Keeps-remove_pids :
    (p : String)
    → ("/run/veladns/unbound/unbound.pid" == p) ≡ false
    → ("/run/veladns/unbound-recursive/unbound.pid" == p) ≡ false
    → Keeps p remove_pids
unfolding Keeps
Keeps-remove_pids p a b f c h = ground arith

-- The paths that prepareRuntime writes or removes even where there is a file.
abbrev pub overwritten : List String
overwritten =
    unbound_runtime_config
    ∷ temp unbound_runtime_config
    ∷ unbound_recursive_runtime_config
    ∷ temp unbound_recursive_runtime_config
    ∷ mosdns_runtime_config
    ∷ temp mosdns_runtime_config
    ∷ foreign_runtime_config
    ∷ temp foreign_runtime_config
    ∷ "/run/veladns/unbound/root.key"
    ∷ "/run/veladns/unbound/root.key.tmp"
    ∷ "/run/veladns/unbound/unbound.pid"
    ∷ "/run/veladns/unbound-recursive/unbound.pid"
    ∷ "/data/direct.txt.tmp"
    ∷ "/data/proxy.txt.tmp"
    ∷ []

abbrev pub Spared : String → Type 0
Spared p = All (λ path. (path == p) ≡ false) overwritten

module _ (p : String) (os : Os) (spared : Spared p) where
  Keeps-copy_key : (o : Option String) → Keeps p (copy_key os "/run/veladns/unbound/root.key" o)
  Keeps-copy_key none = unfold Keeps in λ f c h. h
  Keeps-copy_key (some src) =
      Keeps-copy_file p os src "/run/veladns/unbound/root.key" (ground arith) (ground arith)

  Keeps-chosen :
      (choice : Files → Option String)
      → Keeps p (λ f. copy_key os "/run/veladns/unbound/root.key" (choice f) f)
  unfolding Keeps
  Keeps-chosen choice f c h = Keeps-copy_key (choice f) f c h

  pub Keeps-prepare_files : Keeps p (prepare_files os)
  unfolding prepare_files prepare_domain_lists
  Keeps-prepare_files =
      Keeps-seq p _ _
        (Keeps-seq p _ _
          (Keeps-seq p _ _ (Keeps-call_each p os mkdir directories) (
            Keeps-prepare_lists p os "/data" "/etc/veladns/defaults" domain_list_specs
              (ground arith)))
          (Keeps-chosen (λ f. root_key_source os root_key_candidates f)))
        (Keeps-seq p _ _ (Keeps-call p os lookup_user "unbound") (Keeps-call_each p os chown owned))

  Keeps-render_configs : (cfg : Config) → Keeps p (render_configs os cfg)
  unfolding render_configs
  Keeps-render_configs cfg =
      Keeps-seq p _ _
        (Keeps-seq p _ _
          (Keeps-seq p _ _
            (Keeps-render p os _ unbound_runtime_config (verbosity_change cfg) (ground arith)
              (ground arith))
            (Keeps-render p os _ unbound_recursive_runtime_config (verbosity_change cfg)
              (ground arith) (ground arith)))
          (Keeps-render p os _ mosdns_runtime_config (level_change cfg) (ground arith)
            (ground arith)))
        (Keeps-render p os (foreign_source cfg) foreign_runtime_config (foreign_change cfg)
          (ground arith) (ground arith))

  Keeps-prepare_runtime : (cfg : Config) → Keeps p (prepare_runtime os cfg)
  unfolding prepare_runtime
  Keeps-prepare_runtime cfg =
      Keeps-seq p _ _
        (Keeps-seq p _ _
          (Keeps-seq p _ _ (Keeps-seq p _ _ Keeps-prepare_files (Keeps-render_configs cfg))
            (Keeps-remove_pids p (ground arith) (ground arith)))
          (Keeps-check_config p os unbound_runtime_config))
        (Keeps-check_config p os unbound_recursive_runtime_config)

  -- Whatever fails, a file that was there before is there afterwards with the same content, unless
  -- its path is one of those that are overwritten: so is a list of domains that the operator has
  -- changed.
  pub prepare_runtime-kept :
      (cfg : Config) (f : Files) (c : Bytes)
      → f p ≡ some c
      → (prepare_runtime os cfg f).0 p ≡ some c
  unfolding Keeps
  prepare_runtime-kept cfg = Keeps-prepare_runtime cfg
