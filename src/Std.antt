-- ===== src/Std.antt =====
-- Functions of Go's standard library whose results the provider only passes on or compares: net/url,
-- time.ParseDuration, the Unicode tables behind strings.ToLower, and crypto/sha256 with
-- encoding/hex. The development holds for every choice of them.
use pulumi_eos.Base.{ℤ}
use pulumi_eos.Text.{Str}
use pulumi_eos.Errors.{Result}

-- `Scheme`, `Hostname()` and `Port()` of a parsed URL.
pub record Url : Type 0 where
  pub scheme : Str
  pub hostname : Str
  pub port : Str

pub record Std : Type 0 where
  -- url.Parse
  pub parse_url : Str → Result Url
  -- time.ParseDuration, in nanoseconds
  pub parse_duration : Str → Result ℤ
  -- strings.ToLower
  pub to_lower : Str → Str
  -- hex.EncodeToString(sha256.Sum256(s))
  pub sha256_hex : Str → Str
