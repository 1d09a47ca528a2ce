-- ===== src/Eapi/Rich.antt =====
-- internal/client/eapi/client.go: commands with an `input`, posted past goeapi.
use pulumi_eos.Base.{not, List, [], ◌∷◌, ◌++◌, Option, none, some, if◌then◌else◌, pos, eqb_ℤ}
use pulumi_eos.Text.{Str, codes, str_eq}
use pulumi_eos.Text.Decimal.{itoa}
use pulumi_eos.Errors.{GoError, sentinel, wrapped, text, number, Result, ok, err}
use pulumi_eos.Json.{Value, Items, Fields, num, string, array, object, nil, cons, empty, field}
use pulumi_eos.Goeapi.{Goeapi, Request, RichRpcResponse}
use pulumi_eos.Eapi.{
  Config, Client, Shared, Session, Reply, default_port, err_client_not_init, err_session_closed,
}

abbrev pub err_rich_rpc_failure : GoError
err_rich_rpc_failure = sentinel (codes "eapi: rich runCmds RPC failure")

pub record Command : Type 0 where
  pub cmd : Str
  pub input : Str

-- One entry of the payload: a plain string, or an object with the input.
unfoldable pub payload_cmd : Command → Value
unfolding str_eq
payload_cmd c =
    if str_eq c.input []
    then string c.cmd
    else object (field (codes "cmd") (string c.cmd) (field (codes "input") (string c.input) empty))

unfoldable pub payload_cmds : List Command → Items
unfolding payload_cmd
payload_cmds [] = nil
payload_cmds (c ∷ rest) = cons (payload_cmd c) (payload_cmds rest)

-- The body before json.Marshal, which cannot fail on such values.
unfoldable pub build_rich_payload : List Command → Str → Value
unfolding payload_cmds
build_rich_payload cmds format = object (
    field (codes "jsonrpc") (string (codes "2.0")) (
      field (codes "method") (string (codes "runCmds")) (
        field (codes "params")
          (object (
            field (codes "version") (num (codes "1")) (
              field (codes "cmds") (array (cons (string (codes "enable")) (payload_cmds cmds)))
                (field (codes "format") (string format) empty))))
          (field (codes "id") (string (codes "1")) empty))))

-- The request of `postEAPI`. `insecure_skip_verify` is the negation of `use_https`.
unfoldable pub eapi_request : Config → Value → Request
unfolding itoa
eapi_request c body =
    let scheme = if c.use_https then codes "https" else codes "http" in
    let port = if eqb_ℤ c.port (pos 0) then default_port else c.port in
    record {
      url =
          scheme ++ (codes "://" ++ (c.host ++ (codes ":" ++ (itoa port ++ codes "/command-api"))));
      username = c.username;
      password = c.password;
      timeout = if eqb_ℤ c.timeout (pos 0) then pos 30000000000 else c.timeout;
      insecure_skip_verify = not c.use_https;
      body = body;
    }

-- Without the slot of `enable`.
abbrev pub drop_enable : List Fields → List Fields
drop_enable [] = []
drop_enable (_ ∷ rest) = rest

abbrev pub rpc_result : Result RichRpcResponse → Result (List Fields)
rpc_result (err e) = err e
rpc_result (ok rpc) = elim rpc.error [
  | some (code, message) ↦
      err (wrapped (codes "%w: code %d: %s") (number code ∷ text message ∷ []) err_rich_rpc_failure)
  | none ↦ ok (drop_enable rpc.result)
]

module _ (g : Goeapi) where
  open g use {World, ctx_err, http_post}

  unfoldable pub post_rich : Client g → List Command → Str → World → Result (List Fields) × World
  unfolding build_rich_payload eapi_request str_eq
  post_rich c cmds format w = elim (ctx_err w) [
    | some e ↦ (err e, w)
    | none ↦
        let (r, w') = http_post w (
          eapi_request c.cfg
            (build_rich_payload cmds (if str_eq format [] then codes "json" else format))) in
        (rpc_result r, w')
  ]

  -- A nil client is `none`.
  unfoldable pub run_cmds_rich :
      Option (Client g) → List Command → Str → World → Result (List Fields) × World
  unfolding post_rich
  run_cmds_rich none cmds format w = (err err_client_not_init, w)
  run_cmds_rich (some c) cmds format w = post_rich c cmds format w

  abbrev pub plain : Str → Command
  plain s = record { cmd = s; input = [] }

  abbrev pub stage_rich_batch : Str → List Command → List Command
  stage_rich_batch name cmds =
      plain (codes "configure session " ++ name) ∷ (cmds ++ plain (codes "end") ∷ [])

  abbrev pub done : Str → Result (List Fields) → Result (Unit {0})
  done name (ok _) = ok tt
  done name (err e) = err (wrapped (codes "eapi: stage rich in %s: %w") (text name ∷ []) e)

  unfoldable pub stage_rich : List Command → Session g → Shared g → Reply g Unit
  unfolding run_cmds_rich
  stage_rich cmds x s =
      if x.is_open
      then (let (r, w) =
            run_cmds_rich (some x.parent) (stage_rich_batch x.name cmds) (codes "json") s.world in
          (done x.name r, x, record s { world = w }))
      else (err err_session_closed, x, s)
