-- ===== src/L3/Rpki/Laws.antt =====
-- What the RPKI resource sends: a block inside the block of the AS, each left with `exit`.
use pulumi_eos.Base.{
  Bool, true, false, List, [], ◌∷◌, ◌++◌, Option, none, some, ◌≡◌, refl, All, All-append, ℤ,
}
use pulumi_eos.Text.{Str, codes, str_eq, is_space}
use pulumi_eos.Text.Decimal.{itoa}
use pulumi_eos.Text.Laws.{NoSpace}
use pulumi_eos.Eapi.Device.{has_newline, stays_inside}
use pulumi_eos.Eapi.Modes.{Mode, after_words}
use pulumi_eos.Eapi.Staying.{
  OneLine, OneLine?, OneLine-append, NoSpace-OneLine, itoa-OneLine, itoa-NoSpace, is_keyword,
  is_keyword-IsWord,
}
use pulumi_eos.Eapi.Inside.{
  Own, Goes, command-Own, two_words-Own, two_words-Goes, block_inside, then_inside, exit_inside,
  All-number_cmd, All-text_cmd,
}
use pulumi_eos.Resource.Kind.Laws.{IsSafe}
use pulumi_eos.L3.PrefixList.{sanitize_prefix_list_name}
use pulumi_eos.L3.Listing.{tag-IsWord}
use pulumi_eos.L3.StaticRoute.Laws.{NoSpace-sanitized}
use pulumi_eos.L3.Rpki.{
  RpkiArgs, vrf_part, port_part, transport_or_tcp, cache_lines, rpki_tag, build_rpki_cmds,
}
use pulumi_eos.L3.Rpki.Parse.{rpki}

-- The cache's name has no spaces, and the texts are single lines.
abbrev pub IsSendable : RpkiArgs → Type 0
IsSendable a =
    All NoSpace a.name
    × OneLine a.cache_host
    × OneLine? a.vrf
    × OneLine? a.local_interface
    × OneLine? a.transport

starts :
    (w : Str)
    → is_keyword w ≡ true
    → ((up : List Mode) (ws : List Str)
        → after_words (Mode.rpki_cache ∷ up) (w ∷ ws) ≡ some (Mode.rpki_cache ∷ up))
    → (x : Str) → OneLine x
    → Own Mode.rpki_cache (w ++ b' ' ∷ x)
starts w k own x h = command-Own Mode.rpki_cache w x ((is_keyword-IsWord w k).0, own) h

vrf_part-OneLine : (o : Option Str) → OneLine? o → OneLine (vrf_part o)
unfolding str_eq has_newline
vrf_part-OneLine none h = refl
vrf_part-OneLine (some []) h = refl
vrf_part-OneLine (some (c ∷ s)) h = h

port_part-OneLine : (o : Option ℤ) → OneLine (port_part o)
unfolding has_newline
port_part-OneLine none = refl
port_part-OneLine (some p) = itoa-OneLine p

transport-OneLine : (o : Option Str) → OneLine? o → OneLine (transport_or_tcp o)
unfolding str_eq has_newline
transport-OneLine none h = refl
transport-OneLine (some []) h = refl
transport-OneLine (some (c ∷ s)) h = h

cache_lines-Own : (a : RpkiArgs) → IsSendable a → All (Own Mode.rpki_cache) (cache_lines a)
unfolding is_keyword str_eq has_newline
cache_lines-Own a h =
    let P = Own Mode.rpki_cache in
    (
      starts (codes "host") refl (λ up ws. refl)
          (a.cache_host ++ (vrf_part a.vrf ++ port_part a.port))
          (OneLine-append a.cache_host _ h.1 (
            OneLine-append (vrf_part a.vrf) (port_part a.port) (vrf_part-OneLine a.vrf h.2)
              (port_part-OneLine a.port))),
      All-append P _ _
          (All-number_cmd P (codes "preference") (starts (codes "preference") refl (λ up ws. refl))
            [] a.preference refl)
          (All-append P _ _
            (All-number_cmd P (codes "refresh-interval")
              (starts (codes "refresh-interval") refl (λ up ws. refl)) [] a.refresh_interval refl)
            (All-append P _ _
              (All-number_cmd P (codes "retry-interval")
                (starts (codes "retry-interval") refl (λ up ws. refl)) [] a.retry_interval refl)
              (All-append P _ _
                (All-number_cmd P (codes "expire-interval")
                  (starts (codes "expire-interval") refl (λ up ws. refl)) [] a.expire_interval refl)
                (All-append P _ _
                  (All-text_cmd P (codes "local-interface")
                    (starts (codes "local-interface") refl (λ up ws. refl)) [] a.local_interface
                    refl h.3)
                  (
                    starts (codes "transport") refl (λ up ws. refl) (transport_or_tcp a.transport)
                        (transport-OneLine a.transport h.4),
                    tt,
                  ))))),
    )

-- `router bgp N` enters the AS, from the top of the session.
enters_asn : (asn : ℤ) → Goes [] (codes "router bgp " ++ itoa asn) (Mode.router_bgp ∷ [])
unfolding is_keyword str_eq
enters_asn asn =
    two_words-Goes (codes "router") (codes "bgp") (itoa asn) [] (Mode.router_bgp ∷ [])
      (is_keyword-IsWord (codes "router") refl).0 (is_keyword-IsWord (codes "bgp") refl).0
      (itoa-OneLine asn) (λ ws. refl)

inner_block :
    (a : RpkiArgs)
    → IsSendable a
    → stays_inside
        ((codes "rpki cache " ++ a.name) ∷ (cache_lines a ++ codes "exit" ∷ codes "exit" ∷ []))
        (Mode.router_bgp ∷ [])
      ≡ true
unfolding is_keyword str_eq stays_inside
inner_block a h =
    block_inside (Mode.router_bgp ∷ []) (Mode.router_bgp ∷ []) Mode.rpki_cache
      (codes "rpki cache " ++ a.name) (cache_lines a) (codes "exit" ∷ [])
      (two_words-Goes (codes "rpki") (codes "cache") a.name (Mode.router_bgp ∷ [])
        (Mode.rpki_cache ∷ Mode.router_bgp ∷ []) (is_keyword-IsWord (codes "rpki") refl).0
        (is_keyword-IsWord (codes "cache") refl).0 (NoSpace-OneLine a.name h.0) (λ ws. refl))
      (cache_lines-Own a h) (exit_inside Mode.router_bgp [] [] refl)

build_rpki_cmds-inside :
    (a : RpkiArgs) (remove : Bool)
    → IsSendable a
    → stays_inside (build_rpki_cmds a remove) [] ≡ true
unfolding build_rpki_cmds is_keyword str_eq stays_inside has_newline
build_rpki_cmds-inside a false h =
    then_inside [] (Mode.router_bgp ∷ []) (codes "router bgp " ++ itoa a.bgp_asn)
      ((codes "rpki cache " ++ a.name) ∷ (cache_lines a ++ codes "exit" ∷ codes "exit" ∷ []))
      (enters_asn a.bgp_asn) (inner_block a h)
build_rpki_cmds-inside a true h =
    block_inside [] [] Mode.router_bgp (codes "router bgp " ++ itoa a.bgp_asn)
      ((codes "no rpki cache " ++ a.name) ∷ []) [] (enters_asn a.bgp_asn)
      (
        two_words-Own Mode.router_bgp (codes "no") (codes "rpki") (codes "cache " ++ a.name)
            (is_keyword-IsWord (codes "no") refl).0 (is_keyword-IsWord (codes "rpki") refl).0
            (OneLine-append (codes "cache ") a.name refl (NoSpace-OneLine a.name h.0))
            (λ up ws. refl),
        tt,
      )
      refl

tag-NoSpace :
    (a : RpkiArgs)
    → IsSendable a
    → All NoSpace (itoa a.bgp_asn ++ (codes "-" ++ sanitize_prefix_list_name a.name))
unfolding is_space
tag-NoSpace a h =
    All-append NoSpace (itoa a.bgp_asn) (codes "-" ++ sanitize_prefix_list_name a.name)
      (itoa-NoSpace a.bgp_asn) (refl, NoSpace-sanitized a.name h.0)

pub rpki-IsSafe : (a : RpkiArgs) → IsSendable a → IsSafe rpki a
unfolding rpki rpki_tag is_keyword
rpki-IsSafe a h = (
  tag-IsWord (codes "rpki-") _ refl (tag-NoSpace a h),
  build_rpki_cmds-inside a false h,
  build_rpki_cmds-inside a true h,
)
