-- ===== src/Config/Rendered.antt =====
-- What there is after prepareRuntime has succeeded.
use Prim.Native.String.{String}
use text.Mathlib.TextEquality.{eq_iff}
use vela_dns.Base.{
  ◌≡◌, refl, sym, ap, ◌∙◌, subst, true, false, Option, none, some, arith, Bool-cases, inl, inr,
}
use vela_dns.Text.{Bytes, codes, contains}
use vela_dns.Config.Files.{
  Os, Problem, Files, Action, after, ◌>>◌, call, temp, read_file, write_file, rename, put, remove,
  write_rendered,
}
use vela_dns.Config.Prepare.{rendering, render, checking, check_config}
use vela_dns.Config.Kept.{Keeps}

after-ok :
    (next : Action) (o : Files × Option Problem) (f' : Files)
    → after next o ≡ (f', none)
    → (g : Files) × (o ≡ (g, none)) × (next g ≡ (f', none))
after-ok next (g, none) f' h = (g, refl, h)
after-ok next (g, some e) f' h = cc

-- The state between two operations that succeed.
pub seq-ok :
    (first second : Action) (f f' : Files)
    → (first >> second) f ≡ (f', none)
    → (g : Files) × (first f ≡ (g, none)) × (second g ≡ (f', none))
seq-ok first second f f' h = after-ok second (first f) f' h

call-same : (os : Os) (path : String) (f g : Files) → call os read_file path f ≡ (g, none) → f ≡ g
call-same os path f g h = ground arith

pub kept_through :
    (p : String) (m : Action) (f f' : Files) (e : Option Problem) (c : Bytes)
    → Keeps p m
    → m f ≡ (f', e)
    → f p ≡ some c
    → f' p ≡ some c
unfolding Keeps
kept_through p m f f' e c k r h = subst (λ (o : Files × Option Problem). o.0 p ≡ some c) r (k f c h)

-- A template as it stands behind its change in a file, with no placeholder left.
pub record IsRendered (path : String) (content : Bytes) (f : Files) : Type 0 where
  pub written : f path ≡ some content
  pub complete : contains (codes "__") content ≡ false

written-IsRendered :
    (os : Os) (target : String) (content : Bytes) (f f' : Files)
    → write_rendered os target content f ≡ (f', none)
    → IsRendered target content f'
unfolding write_rendered
written-IsRendered os target content f f' h = elim (Bool-cases (contains (codes "__") content)) [
  | inl left ↦ absurd (ground arith)
  | inr gone ↦ elim (Bool-cases (os.fails write_file (temp target))) [
    | inl no_temp ↦ absurd (ground arith)
    | inr wrote ↦ elim (Bool-cases (os.fails rename target)) [
      | inl no_rename ↦ absurd (ground arith)
      | inr renamed ↦
          let e : put target content (remove (temp target) f) ≡ f' = ground arith in
          record {
            written =
                subst (λ (g : Files). g target ≡ some content) e
                  (rw ((eq_iff target target).1 refl) refl);
            complete = gone;
          }
    ]
  ]
]

pub render-IsRendered :
    (os : Os) (source target : String) (change : Bytes → Bytes) (f f' : Files) (template : Bytes)
    → f source ≡ some template
    → render os source target change f ≡ (f', none)
    → IsRendered target (change template) f'
unfolding render
render-IsRendered os source target change f f' template e h =
    let (g, c, r) =
      seq-ok (call os read_file source) (λ f. rendering os source target change (f source) f) f f'
        h in
    let same : f ≡ g = call-same os source f g c in
    let found : g source ≡ some template = subst (λ (g : Files). g source ≡ some template) same e in
    written-IsRendered os target (change template) g f'
      (ap (λ o. rendering os source target change o g) (sym found) ∙ r)

-- The state stays in the check of a configuration.
pub check_config-accepts :
    (os : Os) (path : String) (content : Bytes) (f f' : Files)
    → f path ≡ some content
    → check_config os path f ≡ (f', none)
    → (os.accepts content ≡ true) × (f ≡ f')
unfolding check_config
check_config-accepts os path content f f' e h =
    let r : checking os path (some content) f ≡ (f', none) =
      ap (λ o. checking os path o f) (sym e) ∙ h in
    ground arith
