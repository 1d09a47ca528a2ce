-- ===== src/Eapi/Payload.antt =====
-- What StageWithInputs posts where no command has an input.
use pulumi_eos.Base.{
  true, false, Bool, none, some, arith, Option-cases, inl, inr, List, [], ◌∷◌, ◌++◌, map, ◌≡◌, refl,
  ap,
}
use pulumi_eos.Text.{Str, codes, str_eq}
use pulumi_eos.Json.{Fields, Value, Items, num, string, array, object, nil, cons, empty, field}
use pulumi_eos.Goeapi.{Goeapi, RichRpcResponse}
use pulumi_eos.Errors.{Result, ok, err}
use pulumi_eos.Eapi.Device.{succeeds}
use pulumi_eos.Eapi.{Client, Session, Shared, stage, run_cmds, run_on, stage_batch}
use pulumi_eos.Eapi.Rich.{
  Command, plain, stage_rich, run_cmds_rich, post_rich, eapi_request, rpc_result, done, payload_cmd,
  payload_cmds, build_rich_payload, stage_rich_batch,
}

abbrev pub strings : List Str → Items
strings [] = nil
strings (s ∷ rest) = cons (string s) (strings rest)

payload-plain :
    (g : Goeapi) (cmds : List Str)
    → payload_cmds (map (plain g) cmds ++ plain g (codes "end") ∷ [])
      ≡ strings (cmds ++ codes "end" ∷ [])
unfolding payload_cmds payload_cmd str_eq
payload-plain g [] = refl
payload-plain g (c ∷ cmds) = ap (cons (string c)) (payload-plain g cmds)

abbrev pub payload_of : Items → Str → Value
payload_of items format = object (
    field (codes "jsonrpc") (string (codes "2.0")) (
      field (codes "method") (string (codes "runCmds")) (
        field (codes "params")
          (object (
            field (codes "version") (num (codes "1"))
              (field (codes "cmds") (array items) (field (codes "format") (string format) empty))))
          (field (codes "id") (string (codes "1")) empty))))

build_rich_payload-plain :
    (g : Goeapi) (name : Str) (cmds : List Str) (format : Str)
    → build_rich_payload (stage_rich_batch g name (map (plain g) cmds)) format
      ≡ payload_of (strings (codes "enable" ∷ stage_batch g name cmds)) format
unfolding build_rich_payload payload_cmds payload_cmd str_eq
build_rich_payload-plain g name cmds format =
    ap
      (λ items.
        payload_of
          (cons (string (codes "enable"))
            (cons (string (codes "configure session " ++ name)) items))
          format)
      (payload-plain g cmds)

-- The lines that enter a session, stage the commands and leave it.
abbrev pub batch : Str → List Str → List Str
batch name cmds = (codes "configure session " ++ name) ∷ (cmds ++ codes "end" ∷ [])

-- A reply without an error of its own.
abbrev pub accepts : Result RichRpcResponse → Bool
accepts (err e) = false
accepts (ok rpc) = elim rpc.error [ none ↦ true | some e ↦ false ]

succeeds-rpc_result :
    (g : Goeapi) (name : Str) (r : Result RichRpcResponse)
    → succeeds (done g name (rpc_result r)) ≡ accepts r
succeeds-rpc_result g name (err e) = refl
succeeds-rpc_result g name (ok rpc) = elim (Option-cases rpc.error) [
  | inl e ↦ rw e refl
  | inr (x, e) ↦ rw e refl
]

post_rich-going :
    (g : Goeapi) (c : Client g) (cmds : List Command) (w : g.World)
    → g.ctx_err w ≡ none
    → post_rich g c cmds (codes "json") w ≡ (
        let r = g.http_post w (eapi_request c.cfg (build_rich_payload cmds (codes "json"))) in
        (rpc_result r.0, r.1))
unfolding post_rich str_eq
post_rich-going g c cmds w h =
    let r = g.http_post w (eapi_request c.cfg (build_rich_payload cmds (codes "json"))) in
    ap {B = Result (List Fields) × g.World}
      (λ o. elim o [ some e ↦ (err e, w) | none ↦ (rpc_result r.0, r.1) ]) h

run_on-going :
    (g : Goeapi) (h : g.Handle) (cmds : List Str) (w : g.World)
    → g.ctx_err w ≡ none
    → (run_on g h cmds (codes "json") w).1 ≡ (g.run_commands w h cmds (codes "json")).1
unfolding run_on str_eq
run_on-going g h cmds w k = ground arith

module _ (g : Goeapi) (cmds : List Str) (x : Session g) (s : Shared g) where
  -- What is posted for the batch.
  abbrev pub posted : Result RichRpcResponse × g.World
  posted = g.http_post s.world (
      eapi_request x.parent.cfg
        (payload_of (strings (codes "enable" ∷ batch x.name cmds)) (codes "json")))

  -- Without inputs, StageRich posts the very batch that Stage hands to goeapi, behind `enable` and each
  -- command a string: on an open session, and while the context is not done, StageRich does to the
  -- world what the post does, succeeds exactly where the reply has no error, and keeps the session;
  -- Stage does what RunCommands does on the batch.
  pub stage_rich-stage :
      (h : g.Handle)
      → x.is_open ≡ true
      → g.ctx_err s.world ≡ none
      → x.parent.node ≡ some h
      → ((stage_rich g (map (plain g) cmds) x s).2.world ≡ posted.1)
        × ((succeeds (stage_rich g (map (plain g) cmds) x s).0 ≡ accepts posted.0)
            × (((stage_rich g (map (plain g) cmds) x s).1 ≡ x)
                × ((stage g cmds x s).2.world
                    ≡ (g.run_commands s.world h (batch x.name cmds) (codes "json")).1)))
  unfolding stage_rich run_cmds_rich stage run_cmds
  stage_rich-stage h is_open going node =
      rw
        (
          is_open,
          node,
          post_rich-going g x.parent _ s.world going,
          build_rich_payload-plain g x.name cmds (codes "json"),
        )
        (
          refl,
          (
            succeeds-rpc_result g x.name posted.0,
            (refl, run_on-going g h (batch x.name cmds) s.world going),
          ),
        )
