-- ===== src/Tests/Provider.antt =====
-- The provider's configuration, its connections, configlets and raw commands.
use pulumi_eos.Base.{true, [], ◌∷◌, some, ◌≡◌, ◌≢◌, ◌↔◌, ◌⊎◌, refl, pos, All}
use pulumi_eos.Text.{Str, codes, contains, split, join}
use pulumi_eos.Errors.{ok}
use pulumi_eos.Errors.Laws.{Passes}
use pulumi_eos.Std.{Url}
use pulumi_eos.Eapi
use pulumi_eos.Eapi.Lab.{lab, lab_device}
use pulumi_eos.Config.{
  configure, transport, request_timeout, retry_base, retry_max, transport_eapi, transport_gnmi,
}
use pulumi_eos.Config.Endpoint.{host_port, split_eos_url}
use pulumi_eos.Config.Laws.{IsUrl, Succeeds, configure_iff, full_override}
use pulumi_eos.Device.Configlet.{canonical_configlet_lines}
use pulumi_eos.Device.Configlet.Laws.{IsLine, canonical_configlet_lines_stable}
use pulumi_eos.Device.RawCli.{is_empty_diff, run_raw_cli}
use pulumi_eos.Device.RawCli.Quiet.{IsQuiet, is_empty_diff_iff}
use pulumi_eos.Device.RawCli.Laws.{Run, run_raw_cli-Run}
use pulumi_eos.Resource.{fresh}
use pulumi_eos.Tests.{std, config, switch}
use pulumi_eos.Tests.Sessions.{client, name, commands, name-IsWord, commands-IsInside}

configure_iff_example : Passes (configure std config) ↔ (
    IsUrl std config.eos_url
    × IsUrl std config.cvp_url
    × ((config.eos_url ≢ []) ⊎ (config.cvp_url ≢ []))
    × ((transport std config ≡ transport_eapi) ⊎ (transport std config ≡ transport_gnmi))
    × Succeeds (request_timeout std config)
    × Succeeds (retry_base std config)
    × Succeeds (retry_max std config))
configure_iff_example = configure_iff std config

-- A resource for another switch and another user.
abbrev spine : Eapi.Config
spine = record {
  host = codes "spine-01";
  port = pos 0;
  username = codes "ops";
  password = [];
  timeout = pos 30000000000;
  use_https = true;
}

abbrev full_url : Str
full_url = codes "https://spine-01:8443"

full_url_full : contains full_url (codes "://") ≡ true
unfolding contains
full_url_full = refl

full_url-ne-nil : full_url ≢ []
full_url-ne-nil e = cc

full_override_example :
    split_eos_url std [] (some full_url) ≡ split_eos_url std config.eos_url (some full_url)
full_override_example = full_override std [] config.eos_url full_url full_url-ne-nil full_url_full

-- A bare override with a port keeps the port in the host's name.
abbrev bare_host : Str
bare_host = codes "spine-01:8443"

abbrev leaf_url : Url
leaf_url = record { scheme = codes "https"; hostname = codes "leaf-01"; port = [] }

bare_host_kept :
    split_eos_url std config.eos_url (some bare_host)
    ≡ ok (record { host = bare_host; port = (host_port leaf_url).1; scheme = leaf_url.scheme })
unfolding split_eos_url contains
bare_host_kept = refl

abbrev body : Str
body = codes "  hostname a  \n\n   \nbanner"

body_lines : canonical_configlet_lines body ≡ codes "  hostname a" ∷ codes "banner" ∷ []
unfolding canonical_configlet_lines
body_lines = refl

body_lines-ne-nil : canonical_configlet_lines body ≢ []
body_lines-ne-nil e = cc (e, body_lines)

canonical_configlet_lines_stable_example :
    All IsLine (canonical_configlet_lines body)
    × (canonical_configlet_lines (join (canonical_configlet_lines body) (codes "\n"))
        ≡ canonical_configlet_lines body)
canonical_configlet_lines_stable_example = canonical_configlet_lines_stable body body_lines-ne-nil

abbrev headers : Str
headers = codes "--- system:/running-config\n+++ session:/s\n\n"

headers_empty : is_empty_diff headers ≡ true
unfolding is_empty_diff
headers_empty = refl

is_empty_diff_iff_example : (is_empty_diff headers ≡ true) ↔ All IsQuiet (split headers b'\n')
is_empty_diff_iff_example = is_empty_diff_iff headers

run_raw_cli-Run_example :
    Run std lab lab_device name commands
      (fresh lab (switch []))
      (run_raw_cli std lab client name commands (fresh lab (switch [])))
run_raw_cli-Run_example =
    run_raw_cli-Run std lab lab_device name commands client (fresh lab (switch [])) name-IsWord
      commands-IsInside
