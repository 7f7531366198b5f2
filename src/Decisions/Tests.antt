-- ===== src/Decisions/Tests.antt =====
-- Two decisions, one of them set up with space around its name.
use vela_dns.Base.{◌≡◌, refl, true, [], ◌∷◌}
use vela_dns.Text.{codes, equal, trim_space}
use vela_dns.Cancel.Server.{already}
use vela_dns.Decisions.{err, no_name, quick_setup, exec, new_counts}
use vela_dns.Decisions.Laws.{set_up, executed, run}

counted_once :
    run
      (set_up (codes " cn ") ∷ executed (codes "cn ") ∷ executed (codes "foreign") ∷ [])
      new_counts
      (codes "cn")
    ≡ 1
unfolding run quick_setup exec equal trim_space
counted_once = refl

name_required : quick_setup (already true) (codes "  ") new_counts ≡ err no_name
unfolding quick_setup trim_space
name_required = refl
