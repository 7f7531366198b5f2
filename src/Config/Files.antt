-- ===== src/Config/Files.antt =====
-- The file operations of cmd/veladns/config.go: copyFile, writeFileAtomic, writeRendered and
-- prepareDomainLists. The files are a map from paths to contents; modes and owners are left out.
-- `Os` says which calls of the operating system fail, by their path, and which configuration
-- unbound-checkconf accepts. A removal of a temporary file does not fail.
use Prim.Native.String.{String, ◌++◌ as ◌<>◌}
use text.Mathlib.Text.{◌==◌}
use vela_dns.Base.{Bool, if◌then◌else◌, Option, none, some, List, [], ◌∷◌}
use vela_dns.Text.{Bytes, codes, contains}

pub data Call : Type 0 where
  mkdir stat open_file create copy close rename lookup_user chown read_file write_file : Call

pub record Os : Type 0 where
  pub fails : Call → String → Bool
  pub accepts : Bytes → Bool

pub data Problem : Type 0 where
  failed : Call → String → Problem
  missing unresolved invalid : String → Problem
  no_trust_anchor : Problem

abbrev pub Files : Type 0
Files = String → Option Bytes

abbrev pub put : String → Bytes → Files → Files
put path content f = λ p. if path == p then some content else f p

abbrev pub remove : String → Files → Files
remove path f = λ p. if path == p then none else f p

-- What an operation makes of the files, and its error.
abbrev pub Action : Type 0
Action = Files → Files × Option Problem

abbrev pub after : Action → Files × Option Problem → Files × Option Problem
after next (f, none) = next f
after next (f, some e) = (f, some e)

-- The next operation, if there was no error.
infixl 5 ◌>>◌
abbrev pub ◌>>◌ : Action → Action → Action
◌>>◌ first second f = after second (first f)

abbrev pub nothing : Action
nothing f = (f, none)

abbrev pub call : Os → Call → String → Action
call os c path f = if os.fails c path then (f, some (failed c path)) else (f, none)

abbrev pub temp : String → String
temp path = path <> ".tmp"

-- The end of copyFile: on an error the temporary file is removed, but not when the rename fails.
abbrev pub finish_copy : Os → String → Bytes → Action
finish_copy os dst content f =
    if os.fails copy dst
    then (remove (temp dst) f, some (failed copy dst))
    else if os.fails close dst
    then (remove (temp dst) f, some (failed close dst))
    else if os.fails rename dst
    then (put (temp dst) content f, some (failed rename dst))
    else (put dst content (remove (temp dst) f), none)

abbrev pub copy_content : Os → String → String → Option Bytes → Action
copy_content os src dst none f = (f, some (missing src))
copy_content os src dst (some content) f =
    if os.fails open_file src
    then (f, some (failed open_file src))
    else if os.fails create (temp dst)
    then (f, some (failed create (temp dst)))
    else finish_copy os dst content f

unfoldable pub copy_file : Os → String → String → Action
copy_file os src dst f = copy_content os src dst (f src) f

-- A write that fails leaves a temporary file, which is taken to be empty.
unfoldable pub write_file_atomic : Os → String → Bytes → Action
write_file_atomic os path content f =
    if os.fails write_file (temp path)
    then (put (temp path) [] f, some (failed write_file (temp path)))
    else if os.fails rename path
    then (put (temp path) content f, some (failed rename path))
    else (put path content (remove (temp path) f), none)

unfoldable pub write_rendered : Os → String → Bytes → Action
unfolding write_file_atomic
write_rendered os path content f =
    if contains (codes "__") content
    then (f, some (unresolved path))
    else write_file_atomic os path content f

-- filepath.Join of two clean parts
abbrev pub in_dir : String → String → String
in_dir dir name = dir <> ("/" <> name)

-- One round of the loop of prepareDomainLists: a list that is there is left as it is.
abbrev pub prepare_list : Os → String → String → Option Bytes → Action
prepare_list os src dst (some content) f = (f, none)
prepare_list os src dst none f = copy_file os src dst f

unfoldable pub prepare_lists : Os → String → String → List String → Action
unfolding copy_file
prepare_lists os data_path defaults [] f = (f, none)
prepare_lists os data_path defaults (name ∷ names) f =
    let dst = in_dir data_path name in
    (call os stat dst
        >> (λ g. prepare_list os (in_dir defaults name) dst (g dst) g)
        >> prepare_lists os data_path defaults names)
      f

abbrev pub domain_list_specs : List String
domain_list_specs = "direct.txt" ∷ "proxy.txt" ∷ []

unfoldable pub prepare_domain_lists : Os → String → String → Action
unfolding prepare_lists
prepare_domain_lists os data_path defaults = prepare_lists os data_path defaults domain_list_specs
