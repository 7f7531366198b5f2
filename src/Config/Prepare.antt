-- ===== src/Config/Prepare.antt =====
-- prepareRuntime and chownUnbound of cmd/veladns/config.go.
use Prim.Native.String.{String}
use vela_dns.Base.{Bool, false, not, ◌||◌, if◌then◌else◌, Option, none, some, List, [], ◌∷◌}
use vela_dns.Text.{Bytes, codes, is_empty}
use vela_dns.Text.Replace.{replace_all}
use vela_dns.Config.{Config}
use vela_dns.Config.Files.{
  Call, mkdir, stat, lookup_user, chown, read_file, Os, missing, invalid, no_trust_anchor, Files,
  remove, Action, ◌>>◌, nothing, call, copy_file, write_rendered, prepare_domain_lists,
}

abbrev pub runtime_dir : String
runtime_dir = "/run/veladns"

abbrev pub unbound_runtime_dir : String
unbound_runtime_dir = "/run/veladns/unbound"

abbrev pub unbound_recursive_runtime_dir : String
unbound_recursive_runtime_dir = "/run/veladns/unbound-recursive"

abbrev pub config_dir : String
config_dir = "/etc/veladns"

abbrev pub data_dir : String
data_dir = "/data"

abbrev pub mosdns_runtime_config : String
mosdns_runtime_config = "/run/veladns/mosdns.yaml"

abbrev pub foreign_runtime_config : String
foreign_runtime_config = "/run/veladns/foreign.yaml"

abbrev pub unbound_runtime_config : String
unbound_runtime_config = "/run/veladns/unbound.conf"

abbrev pub unbound_recursive_runtime_config : String
unbound_recursive_runtime_config = "/run/veladns/unbound-recursive.conf"

abbrev pub root_key_candidates : List String
root_key_candidates =
    "/usr/share/dnssec-root/trusted-key.key" ∷ "/usr/share/dnssec-root/root.key"
    ∷ "/etc/unbound/root.key" ∷ []

-- A call on each of some paths, up to the first that fails.
abbrev pub call_each : Os → Call → List String → Action
call_each os c [] = nothing
call_each os c (path ∷ paths) = call os c path >> call_each os c paths

-- os.Stat gives a size above 0
abbrev pub has_content : Os → String → Option Bytes → Bool
has_content os path none = false
has_content os path (some content) = not (os.fails stat path || is_empty content)

unfoldable pub root_key_source : Os → List String → Files → Option String
root_key_source os [] f = none
root_key_source os (path ∷ paths) f =
    if has_content os path (f path) then some path else root_key_source os paths f

abbrev pub copy_key : Os → String → Option String → Action
copy_key os dst none f = (f, some no_trust_anchor)
copy_key os dst (some src) f = copy_file os src dst f

-- The numbers of the account are read as Lookup gives them.
abbrev pub chown_unbound : Os → List String → Action
chown_unbound os paths = call os lookup_user "unbound" >> call_each os chown paths

abbrev pub rendering : Os → String → String → (Bytes → Bytes) → Option Bytes → Action
rendering os source target change none f = (f, some (missing source))
rendering os source target change (some template) f = write_rendered os target (change template) f

-- Reads a template, replaces its placeholder, and writes the result.
unfoldable pub render : Os → String → String → (Bytes → Bytes) → Action
unfolding write_rendered
render os source target change =
    call os read_file source >> (λ f. rendering os source target change (f source) f)

abbrev pub checking : Os → String → Option Bytes → Action
checking os path none f = (f, some (invalid path))
checking os path (some content) f =
    if os.accepts content then (f, none) else (f, some (invalid path))

-- unbound-checkconf on one file
unfoldable pub check_config : Os → String → Action
check_config os path f = checking os path (f path) f

abbrev pub foreign_source : Config → String
foreign_source cfg =
    if cfg.auto_enabled
    then "/etc/veladns/foreign-mihomo.yaml.tmpl"
    else "/etc/veladns/foreign-secure.yaml"

abbrev pub foreign_change : Config → Bytes → Bytes
foreign_change cfg template =
    if cfg.auto_enabled
    then replace_all (codes "__AUTO_FORWARD_ENDPOINT__") cfg.auto_dns template
    else template

abbrev pub verbosity_change : Config → Bytes → Bytes
verbosity_change cfg = replace_all (codes "__UNBOUND_VERBOSITY__") cfg.unbound_log

abbrev pub level_change : Config → Bytes → Bytes
level_change cfg = replace_all (codes "__LOG_LEVEL__") cfg.log_level

abbrev pub directories : List String
directories = runtime_dir ∷ unbound_runtime_dir ∷ unbound_recursive_runtime_dir ∷ data_dir ∷ []

abbrev pub owned : List String
owned = unbound_runtime_dir ∷ "/run/veladns/unbound/root.key" ∷ unbound_recursive_runtime_dir ∷ []

-- The files before the templates: the directories, the lists and the trust anchor.
unfoldable pub prepare_files : Os → Action
unfolding prepare_domain_lists root_key_source copy_file
prepare_files os =
    call_each os mkdir directories
    >> prepare_domain_lists os data_dir "/etc/veladns/defaults"
    >> (λ f.
        copy_key os "/run/veladns/unbound/root.key" (root_key_source os root_key_candidates f) f)
    >> chown_unbound os owned

unfoldable pub render_configs : Os → Config → Action
unfolding render replace_all
render_configs os cfg =
    render os "/etc/veladns/unbound.conf.tmpl" unbound_runtime_config (verbosity_change cfg)
    >> render os "/etc/veladns/unbound-recursive.conf.tmpl" unbound_recursive_runtime_config
        (verbosity_change cfg)
    >> render os "/etc/veladns/mosdns.yaml.tmpl" mosdns_runtime_config (level_change cfg)
    >> render os (foreign_source cfg) foreign_runtime_config (foreign_change cfg)

abbrev pub remove_pids : Action
remove_pids f = (
  remove "/run/veladns/unbound-recursive/unbound.pid" (remove "/run/veladns/unbound/unbound.pid" f),
  none,
)

unfoldable pub prepare_runtime : Os → Config → Action
unfolding prepare_files render_configs check_config
prepare_runtime os cfg =
    prepare_files os
    >> render_configs os cfg
    >> remove_pids
    >> check_config os unbound_runtime_config
    >> check_config os unbound_recursive_runtime_config
