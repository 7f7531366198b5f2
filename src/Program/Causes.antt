-- ===== src/Program/Causes.antt =====
-- Why main of cmd/veladns/main.go ends before it runs its children.
use vela_dns.Base.{ℕ, ◌≡◌, refl, sym, subst, inl, inr, ◌⊎◌, Option, none, some, [], arith}
use vela_dns.Config.{Config, ConfigError, Result, ok, err, load_config}
use vela_dns.Config.Files.{Files, Problem}
use vela_dns.Config.Prepare.{prepare_runtime}
use vela_dns.Doh.Started.{Started, no_udp, no_tcp, running}
use vela_dns.Program.{World, exited, start_bridge, start, main, with_bridge, bridge_of}

-- One of the two addresses cannot be listened on.
abbrev pub IsRefused : Started → Type 0
IsRefused o = (o ≡ no_udp) ⊎ (o ≡ no_tcp)

with_bridge-exited :
    (w : World) (cfg : Config) (files : Files) (b : Started) (n : ℕ)
    → with_bridge w cfg files b ≡ exited n
    → (n ≡ 1) × IsRefused b
with_bridge-exited w cfg files no_udp n h = (cc, inl refl)
with_bridge-exited w cfg files no_tcp n h = (cc, inr refl)
with_bridge-exited w cfg files (running us s) n h = absurd (cc)

-- Why a start without arguments ends with a code.
pub data IsCause (w : World) : ℕ → Type 0 where
  bad_configuration : (e : ConfigError) → load_config w.getenv ≡ err e → IsCause w 2
  not_prepared :
      (cfg : Config) (problem : Problem)
      → load_config w.getenv ≡ ok cfg
      → (prepare_runtime w.os cfg w.files).1 ≡ some problem
      → IsCause w 1
  not_bridged :
      (cfg : Config)
      → load_config w.getenv ≡ ok cfg
      → (prepare_runtime w.os cfg w.files).1 ≡ none
      → IsRefused (bridge_of w cfg)
      → IsCause w 1

start_bridge-exited :
    (w : World) (cfg : Config) (p : Files × Option Problem) (n : ℕ)
    → start_bridge w cfg p ≡ exited n
    → (n ≡ 1)
      × (((problem : Problem) × (p.1 ≡ some problem))
          ⊎ ((p.1 ≡ none) × IsRefused (bridge_of w cfg)))
start_bridge-exited w cfg (files, some problem) n h = (cc, inl (problem, refl))
start_bridge-exited w cfg (files, none) n h =
    let (one, why) = with_bridge-exited w cfg files (bridge_of w cfg) n h in (one, inr (refl, why))

start-exited :
    (w : World) (c : Result Config) (n : ℕ)
    → load_config w.getenv ≡ c
    → start w c ≡ exited n
    → IsCause w n
start-exited w (err e) n loaded h = subst (IsCause w) (ground arith) (bad_configuration e loaded)
start-exited w (ok cfg) n loaded h =
    let (one, why) = start_bridge-exited w cfg (prepare_runtime w.os cfg w.files) n h in
    subst (IsCause w) (sym one) (elim why [
      | inl (problem, e) ↦ not_prepared cfg problem loaded e
      | inr (e, b) ↦ not_bridged cfg loaded e b
    ])

-- A start without arguments that does not come to run the children exits with 2 where the
-- environment is no configuration, and with 1 where the files cannot be prepared or, once they are,
-- the bridge does not start.
pub main-IsCause : (w : World) (n : ℕ) → main [] w ≡ exited n → IsCause w n
unfolding main
main-IsCause w n h = start-exited w (load_config w.getenv) n refl h
