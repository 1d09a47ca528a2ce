-- ===== src/Goeapi.antt =====
-- The world outside the provider, as the code of client/eapi sees it: the module goeapi, net/http,
-- the context and the scheduler. All of it is a parameter of the development.
use pulumi_eos.Base.{Bool, List, Option, ℤ}
use pulumi_eos.Text.{Str}
use pulumi_eos.Errors.{GoError, Result}
use pulumi_eos.Json.{Value, Fields}

-- What `postEAPI` hands to net/http.
pub record Request : Type 0 where
  pub url : Str
  pub username : Str
  pub password : Str
  pub timeout : ℤ
  pub insecure_skip_verify : Bool
  pub body : Value

-- `error` of the envelope, with its code and its message.
pub record RichRpcResponse : Type 0 where
  pub result : List Fields
  pub error : Option (ℤ × Str)

pub record Goeapi : Type 1 where
  pub World : Type 0
  pub Handle : Type 0
  -- goeapi.Connect(transport, host, username, password, port)
  pub connect : World → Str → Str → Str → Str → ℤ → Result Handle × World
  -- Node.RunCommands(cmds, format), with its `Result` field
  pub run_commands : World → Handle → List Str → Str → Result (List Fields) × World
  -- http.Client.Do and the decoding of the reply
  pub http_post : World → Request → Result RichRpcResponse × World
  -- ctx.Err()
  pub ctx_err : World → Option GoError
  -- which case a `select` takes where both are ready: true for `<-ctx.Done()`
  pub picks_done : World → Bool
