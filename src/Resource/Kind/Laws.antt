-- ===== src/Resource/Kind/Laws.antt =====
-- What Create, Update and Delete of a kind of resource do to the switch.
use pulumi_eos.Base.{refl, Bool, true, false, ◌++◌, All}
use pulumi_eos.Text.{Str, codes}
use pulumi_eos.Text.Laws.{NoSpace}
use pulumi_eos.Text.Split.{IsWord, IsWord-append}
use pulumi_eos.Errors.{Result, ok, err}
use pulumi_eos.Resource.{Op}
use pulumi_eos.Goeapi.{Goeapi}
use pulumi_eos.Std.{Std}
use pulumi_eos.Eapi.Device.{SessionDevice, IsInside}
use pulumi_eos.Config.{Config, session_prefix}
use pulumi_eos.Resource.Laws.{
  Applied, Submitted, apply_with-Applied, submit_with-Submitted, delete_with-Applied,
}
use pulumi_eos.Resource.Kind.{
  Kind, prepared, apply_kind, create_kind, update_kind, delete_kind, message,
}

module _ {A : Type 0} (k : Kind A) where
  -- Arguments whose session has a name without blanks and whose commands stay in it.
  abbrev pub IsSafe : A → Type 0
  IsSafe a = IsWord (k.tag a) × IsInside (k.commands a false) × IsInside (k.commands a true)

  stays : (a : A) (remove : Bool) → IsSafe a → IsInside (k.commands a remove)
  stays a false h = h.1
  stays a true h = h.2

  module _ (g : Goeapi) (d : SessionDevice g) (std : Std) (cfg : Config) where
    abbrev pub session_of : A → Str
    session_of a = session_prefix cfg ++ k.tag a

    -- Create and Update are `Submitted` with the commands that configure, Delete is `Applied` with
    -- those that remove.
    abbrev pub IsTransactional : A → Bool → g.World → Type 0
    IsTransactional a dry_run w =
        Submitted g d (session_of a) (k.commands a false) (k.validate a) dry_run
          (record { id = k.id a; output = a }) w (create_kind k g std cfg a dry_run w)
        × Submitted g d (session_of a) (k.commands a false) (k.validate a) dry_run a w
            (update_kind k g std cfg a dry_run w)
        × Applied g d (session_of a) (k.commands a true) w (delete_kind k g std cfg a w)

    prepared-Applied :
        (a : A) (r : Result (Unit {0})) (apply : Op g (Unit {0})) (remove : Bool) (w : g.World)
        → Applied g d (session_of a) (k.commands a remove) w (apply w)
        → Applied g d (session_of a) (k.commands a remove) w (prepared k g std cfg r apply w)
    prepared-Applied a (err e) apply remove w h = refl
    prepared-Applied a (ok _) apply remove w h = h

    apply_kind-Applied :
        (a : A) (remove : Bool) (w : g.World)
        → All NoSpace (session_prefix cfg)
        → IsSafe a
        → Applied g d (session_of a) (k.commands a remove) w (apply_kind k g std cfg a remove w)
    unfolding apply_kind
    apply_kind-Applied a remove w hp h = prepared-Applied a (k.prepare a) _ remove w (
        apply_with-Applied g d std cfg (k.access a) (k.tag a) (k.commands a remove) w
          (IsWord-append (session_prefix cfg) (k.tag a) hp h.0) (stays a remove h))

    pub kind-IsTransactional :
        (a : A) (dry_run : Bool) (w : g.World)
        → All NoSpace (session_prefix cfg)
        → IsSafe a
        → IsTransactional a dry_run w
    unfolding create_kind update_kind delete_kind
    kind-IsTransactional a dry_run w hp h = (
      submit_with-Submitted g d (session_of a) (k.commands a false) (message k (codes "create"))
          (k.operands a) (record { id = k.id a; output = a }) (k.validate a) dry_run
          (apply_kind k g std cfg a false) w (apply_kind-Applied a false w hp h),
      submit_with-Submitted g d (session_of a) (k.commands a false) (message k (codes "update"))
          (k.operands a) a (k.validate a) dry_run (apply_kind k g std cfg a false) w
          (apply_kind-Applied a false w hp h),
      delete_with-Applied g d (session_of a) (k.commands a true) (message k (codes "delete"))
          (k.operands a) (apply_kind k g std cfg a true) w (apply_kind-Applied a true w hp h),
    )
