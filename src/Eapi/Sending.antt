-- ===== src/Eapi/Sending.antt =====
-- RunCmds passes on what the switch does, or does nothing: facts about one call of goeapi carry over.
use pulumi_eos.Base.{true, false, List, Option, none, some, ◌≡◌, refl, arith, []}
use pulumi_eos.Text.{Str, str_eq}
use pulumi_eos.Goeapi.{Goeapi}
use pulumi_eos.Eapi.{Client, run_cmds, run_node, run_on}
use pulumi_eos.Eapi.Device.{succeeds}

module _ (g : Goeapi) (cmds : List Str) (format : Str) (known : str_eq format [] ≡ false)
    (w : g.World) where
  module _ {ℓ} {A : Type ℓ} (P : g.World → A) where
    keeps-run_on :
        (h : g.Handle)
        → P (g.run_commands w h cmds format).1 ≡ P w
        → P (run_on g h cmds format w).1 ≡ P w
    unfolding run_on
    keeps-run_on h keep = ground arith

    keeps-run_node :
        (n : Option g.Handle)
        → ((h : g.Handle) → P (g.run_commands w h cmds format).1 ≡ P w)
        → P (run_node g n cmds format w).1 ≡ P w
    keeps-run_node none keep = refl
    keeps-run_node (some h) keep = keeps-run_on h (keep h)

    pub keeps-run_cmds :
        (c : Option (Client g))
        → ((h : g.Handle) → P (g.run_commands w h cmds format).1 ≡ P w)
        → P (run_cmds g c cmds format w).1 ≡ P w
    unfolding run_cmds
    keeps-run_cmds none keep = refl
    keeps-run_cmds (some c) keep = keeps-run_node c.node keep

    fails-run_on :
        (h : g.Handle)
        → (succeeds (g.run_commands w h cmds format).0 ≡ false
            → P (g.run_commands w h cmds format).1 ≡ P w)
        → succeeds (run_on g h cmds format w).0 ≡ false
        → P (run_on g h cmds format w).1 ≡ P w
    unfolding run_on
    fails-run_on h keep bad = ground arith

    fails-run_node :
        (n : Option g.Handle)
        → ((h : g.Handle)
            → succeeds (g.run_commands w h cmds format).0 ≡ false
            → P (g.run_commands w h cmds format).1 ≡ P w)
        → succeeds (run_node g n cmds format w).0 ≡ false
        → P (run_node g n cmds format w).1 ≡ P w
    fails-run_node none keep bad = refl
    fails-run_node (some h) keep bad = fails-run_on h (keep h) bad

    pub fails-run_cmds :
        (c : Option (Client g))
        → ((h : g.Handle)
            → succeeds (g.run_commands w h cmds format).0 ≡ false
            → P (g.run_commands w h cmds format).1 ≡ P w)
        → succeeds (run_cmds g c cmds format w).0 ≡ false
        → P (run_cmds g c cmds format w).1 ≡ P w
    unfolding run_cmds
    fails-run_cmds none keep bad = refl
    fails-run_cmds (some c) keep bad = fails-run_node c.node keep bad

  module _ {ℓ} {A : Type ℓ} (P : g.World → A) (a : A) where
    succeeds-run_on :
        (h : g.Handle)
        → (succeeds (g.run_commands w h cmds format).0 ≡ true
            → P (g.run_commands w h cmds format).1 ≡ a)
        → succeeds (run_on g h cmds format w).0 ≡ true
        → P (run_on g h cmds format w).1 ≡ a
    unfolding run_on
    succeeds-run_on h keep good = ground arith

    succeeds-run_node :
        (n : Option g.Handle)
        → ((h : g.Handle)
            → succeeds (g.run_commands w h cmds format).0 ≡ true
            → P (g.run_commands w h cmds format).1 ≡ a)
        → succeeds (run_node g n cmds format w).0 ≡ true
        → P (run_node g n cmds format w).1 ≡ a
    succeeds-run_node none keep good = cc
    succeeds-run_node (some h) keep good = succeeds-run_on h (keep h) good

    pub succeeds-run_cmds :
        (c : Option (Client g))
        → ((h : g.Handle)
            → succeeds (g.run_commands w h cmds format).0 ≡ true
            → P (g.run_commands w h cmds format).1 ≡ a)
        → succeeds (run_cmds g c cmds format w).0 ≡ true
        → P (run_cmds g c cmds format w).1 ≡ a
    unfolding run_cmds
    succeeds-run_cmds none keep good = cc
    succeeds-run_cmds (some c) keep good = succeeds-run_node c.node keep good
