-- ===== src/Rules/Closing.antt =====
-- Close of internal/rulesplugin/rulesplugin.go: any number of calls close the channel and the watcher
-- once, and the loop handles nothing that it receives behind that.
use vela_dns.Base.{
  ℕ, zero, suc, ◌+◌, ◌≡◌, refl, ap, ◌∙◌, Bool, true, false, if◌then◌else◌, if-keeps, List, [], ◌∷◌,
  ◌++◌, arith,
}
use vela_dns.Text.{Bytes}
use vela_dns.Rules.{Library}
use vela_dns.Rules.Reload.{Matchers}
use vela_dns.Rules.Watch.{Message, closed, Watch, watch, handle}

-- Whether closeOnce has run, how often the channel was closed, whether there is a watcher, and how
-- often that was closed. To close a channel twice is a panic.
pub record Handles : Type 0 where
  pub closed_once : Bool
  pub done : ℕ
  pub watching : Bool
  pub watcher : ℕ

unfoldable pub close : Handles → Handles
close h = if h.closed_once then h else record h {
  closed_once = true;
  done = h.done + 1;
  watcher = if h.watching then h.watcher + 1 else h.watcher;
}

unfoldable pub closes : ℕ → Handles → Handles
unfolding close
closes zero h = h
closes (suc n) h = closes n (close h)

abbrev open_with : Bool → Handles
open_with watching = record { closed_once = false; done = 0; watching = watching; watcher = 0 }

close_again : (h : Handles) → h.closed_once ≡ true → close h ≡ h
unfolding close
close_again h e =
    if-keeps (λ k. k ≡ h) h.closed_once (λ yes_closed. refl)
      (λ opened. absurd (ground (arith, e, opened)))

closes-closed : (n : ℕ) (h : Handles) → h.closed_once ≡ true → closes n h ≡ h
unfolding closes close
closes-closed zero h e = refl
closes-closed (suc n) h e = ap (closes n) (close_again h e) ∙ closes-closed n h e

-- One or more calls close the channel once, and the watcher once if there is one.
pub closes_once :
    (n : ℕ) (watching : Bool)
    → let h = closes (suc n) (open_with watching) in
      (h.done ≡ 1) × (h.watcher ≡ (if watching then 1 else 0))
unfolding closes close
closes_once n watching =
    let h = close (open_with watching) in
    let same = closes-closed n h refl in (ap (λ k. k.done) same, ap (λ k. k.watcher) same)

module _ (lib : Library) (ms : Matchers) (includes : List Bytes) (clean : Bytes → Bytes)
    (path : Bytes) where
  -- What the loop receives behind the close of the channel makes no difference.
  pub watch-closed :
      (before later : List (ℕ × Message)) (now : ℕ) (w : Watch lib ms includes)
      → watch lib ms includes clean path (before ++ ((now, closed) ∷ later)) w
        ≡ watch lib ms includes clean path (before ++ ((now, closed) ∷ [])) w
  unfolding watch handle
  watch-closed [] later now w = refl
  watch-closed ((at, m) ∷ before) later now w =
      let (w', more) = handle lib ms includes clean path at m w in
      ap (λ r. if more then r else (w', false)) (watch-closed before later now w')
