-- ===== src/Resource/Laws.antt =====
-- What Create, Update and Delete of any resource do to the switch.
use pulumi_eos.Base.{
  Bool, true, false, List, ◌++◌, Option, none, some, ◌≡◌, refl, ap₂, ◌∙◌, arith, if◌then◌else◌,
  false≢true, ℤ, eqb_ℤ, pos,
}
use pulumi_eos.Text.{Str, codes}
use pulumi_eos.Text.Split.{IsWord}
use pulumi_eos.Errors.{Operand, Result, ok, err, wrap_err, ◌>>=◌}
use pulumi_eos.Goeapi.{Goeapi}
use pulumi_eos.Std.{Std}
use pulumi_eos.Eapi
use pulumi_eos.Eapi.{Client, Shared}
use pulumi_eos.Eapi.Device.{SessionDevice, IsInside}
use pulumi_eos.Config.{Config, session_prefix}
use pulumi_eos.Config.Clients.{eapi_client, connected, connection}
use pulumi_eos.Resource.Atomic.{Run, run_session-Run}
use pulumi_eos.Resource.{
  Access, Op, on_client, map_result, fresh, world_of, run_session, new_client, apply_with,
  submit_with, delete_with,
}

module _ (g : Goeapi) (d : SessionDevice g) where
  open d use {running, pending, replay}

  -- An operation that stages `cmds` in the session `name`: it returns; behind an error the switch is
  -- unchanged, and without one the session is replayed.
  abbrev pub Applied : Str → List Str → g.World → Option (Result (Unit {0}) × g.World) → Type 0
  Applied name cmds w none = ⊥
  Applied name cmds w (some (err e, w')) = running w' ≡ running w
  Applied name cmds w (some (ok _, w')) = running w' ≡ replay (pending w name ++ cmds) (running w)

  keeps-new :
      {A : Type 0} (P : g.World → A) (cfg : Eapi.Config) (w : g.World)
      → ((t h u p : Str) (port : ℤ) → P (g.connect w t h u p port).1 ≡ P w)
      → P (Eapi.new g cfg w).1 ≡ P w
  unfolding Eapi.new
  keeps-new P cfg w keep = ground (
    arith,
    keep (if cfg.use_https then codes "https" else codes "http") cfg.host cfg.username cfg.password
        (if eqb_ℤ cfg.port (pos 0) then Eapi.default_port else cfg.port),
  )

  keeps-connected :
      {A : Type 0} (P : g.World → A) (std : Std) (r : Result Eapi.Config) (w : g.World)
      → ((t h u p : Str) (port : ℤ) → P (g.connect w t h u p port).1 ≡ P w)
      → P (connected std g r w).1 ≡ P w
  keeps-connected P std (err e) w keep = refl
  keeps-connected P std (ok cfg) w keep = keeps-new P cfg w keep

  module _ (std : Std) (cfg : Config) where
    keeps-new_client :
        {A : Type 0} (P : g.World → A) (a : Access) (w : g.World)
        → ((t h u p : Str) (port : ℤ) → P (g.connect w t h u p port).1 ≡ P w)
        → P (new_client g std cfg a w).1 ≡ P w
    unfolding new_client eapi_client
    keeps-new_client P a w keep =
        keeps-connected P std (connection std (some cfg) a.host a.username a.password) w keep

    run-Applied :
        (name : Str) (cmds : List Str) (w w' : g.World) (r : Option (Result (Unit {0}) × Shared g))
        → running w' ≡ running w
        → pending w' name ≡ pending w name
        → Run g d name cmds (fresh g w') r
        → Applied name cmds w (world_of g r)
    run-Applied name cmds w w' none same held h = false≢true h.0
    run-Applied name cmds w w' (some (err e, s)) same held h = h ∙ same
    run-Applied name cmds w w' (some (ok _, s)) same held h =
        h ∙ ap₂ (λ p r. replay (p ++ cmds) r) held same

    on_client-Applied :
        (name : Str) (cmds : List Str) (w w' : g.World) (r : Result (Client g))
        → IsWord name
        → IsInside cmds
        → running w' ≡ running w
        → pending w' name ≡ pending w name
        → Applied name cmds w (on_client g std cfg name cmds (r, w'))
    on_client-Applied name cmds w w' (err e) word stay same held = same
    on_client-Applied name cmds w w' (ok c) word stay same held =
        run-Applied name cmds w w' (run_session g c name cmds (fresh g w')) same held
          (run_session-Run g d name cmds c (fresh g w') word stay)

    pub apply_with-Applied :
        (a : Access) (tag : Str) (cmds : List Str) (w : g.World)
        → IsWord (session_prefix cfg ++ tag)
        → IsInside cmds
        → Applied (session_prefix cfg ++ tag) cmds w (apply_with g std cfg a tag cmds w)
    unfolding apply_with
    apply_with-Applied a tag cmds w word stay =
        let (r, w') = new_client g std cfg a w in
        on_client-Applied (session_prefix cfg ++ tag) cmds w w' r word stay
          (keeps-new_client running a w (d.connects w))
          (keeps-new_client (λ v. pending v (session_prefix cfg ++ tag)) a w
            (λ t h u p port. d.connects_pending w t h u p port _))

  -- What Create and Update promise: they return; an error leaves the switch as it was; success means
  -- that the input was valid, that the answer is the expected one, and that the session was replayed,
  -- or that nothing was done in a dry run.
  abbrev pub Submitted :
      {R : Type 0}
      → Str
      → List Str
      → Result (Unit {0})
      → Bool
      → R
      → g.World
      → Option (Result R × g.World)
      → Type 0
  Submitted name cmds valid dry_run response w none = ⊥
  Submitted name cmds valid dry_run response w (some (err e, w')) = running w' ≡ running w
  Submitted name cmds valid dry_run response w (some (ok r, w')) =
      (valid ≡ ok tt)
      × (r ≡ response)
      × (running w' ≡ (if dry_run then running w else replay (pending w name ++ cmds) (running w)))

  module _ {R : Type 0} (name : Str) (cmds : List Str) (f : Str) (args : List Operand)
      (response : R) where
    answered-Submitted :
        (w : g.World) (o : Option (Result (Unit {0}) × g.World))
        → Applied name cmds w o
        → Submitted name cmds
            (ok tt)
            false
            response
            w
            (map_result g (λ r. wrap_err f args r >>= λ _. ok response) o)
    answered-Submitted w none h = h
    answered-Submitted w (some (err e, w')) h = h
    answered-Submitted w (some (ok _, w')) h = (refl, refl, h)

    pub submit_with-Submitted :
        (valid : Result (Unit {0})) (dry_run : Bool) (apply : Op g (Unit {0})) (w : g.World)
        → Applied name cmds w (apply w)
        → Submitted name cmds valid dry_run response w
            (submit_with g valid dry_run response f args apply w)
    unfolding submit_with
    submit_with-Submitted (err e) dry_run apply w h = refl
    submit_with-Submitted (ok _) true apply w h = (refl, refl, refl)
    submit_with-Submitted (ok _) false apply w h = answered-Submitted w (apply w) h

  module _ (name : Str) (cmds : List Str) (f : Str) (args : List Operand) where
    wrapped-Applied :
        (w : g.World) (o : Option (Result (Unit {0}) × g.World))
        → Applied name cmds w o
        → Applied name cmds w (map_result g (wrap_err f args) o)
    wrapped-Applied w none h = h
    wrapped-Applied w (some (err e, w')) h = h
    wrapped-Applied w (some (ok _, w')) h = h

    pub delete_with-Applied :
        (apply : Op g (Unit {0})) (w : g.World)
        → Applied name cmds w (apply w)
        → Applied name cmds w (delete_with g f args apply w)
    unfolding delete_with
    delete_with-Applied apply w h = wrapped-Applied w (apply w) h
