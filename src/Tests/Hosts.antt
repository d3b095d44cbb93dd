-- ===== src/Tests/Hosts.antt =====
-- The host check and the configuration of packages/backend/src/webhooks.ts.
use taop_protocol.Prelude.{◌≡◌, ◌≢◌, refl, true, false, text, some, none, arith, text_beq, to_lower}
use taop_protocol.Webhooks.{Url, WebhookConfig}
use taop_protocol.Webhooks.Hosts.{
  after_prefix, mapped_ipv4, is_local_name, is_private_address, private_host_within,
  is_private_host, strip_brackets, match_ipv4, split_on, bounded_number, decimal_digit,
  is_private_ipv4, hex_digit, dotted, is_unique_local, is_link_local, byte_text, digits_value,
  drop_close, drop_open,
}
use taop_protocol.Webhooks.Hosts.Dotted.{is_private_host-dotted}
use taop_protocol.Webhooks.Hosts.Recursion.{private_host_within_enough}
use taop_protocol.Webhooks.Config.{
  trim, validate_webhook_url, validate_url, int_env, load_webhook_config, loaded, trimmed,
}
use taop_protocol.Webhooks.Config.Validation.{IsChecked, load_webhook_config-IsChecked}
use taop_protocol.Prelude.{◌/◌, ◌%◌}
use taop_protocol.Webhooks.Hosts.Mapped.{mapped_host, is_private_host-mapped_host}
use taop_protocol.Tests.Backend.{platform, env}

private_host_within_enough_example : private_host_within 18 (text "::ffff:10.1.2.3") ≢ none
private_host_within_enough_example =
    private_host_within_enough 18 (text "::ffff:10.1.2.3") (omega arith)

-- The addresses of the loopback in their spellings, and others.
spellings :
    (is_private_host (text "127.0.0.1") ≡ true)
    × (is_private_host (text "[::FFFF:7f00:1]") ≡ true)
    × (is_private_host (text "example.com") ≡ false)
    × (is_private_host (text "172.32.0.1") ≡ false)
    × (is_private_host (text "localhost.") ≡ false)
unfolding is_private_host is_local_name text_beq strip_brackets to_lower after_prefix
    is_private_address match_ipv4 split_on bounded_number decimal_digit is_private_ipv4 mapped_ipv4
    hex_digit dotted is_unique_local is_link_local byte_text digits_value drop_close drop_open
    private_host_within
spellings = (refl, refl, refl, refl, refl)

abbrev pub config : WebhookConfig
config = record {
  url = text "https://example.com";
  secret = none;
  poll_ms = 5000;
  timeout_ms = 10000;
  max_per_poll = 25;
}

pub loads_config : load_webhook_config platform env ≡ loaded config
unfolding load_webhook_config trim validate_webhook_url validate_url int_env is_private_host
    is_local_name text_beq strip_brackets to_lower after_prefix is_private_address match_ipv4
    split_on bounded_number decimal_digit is_private_ipv4 mapped_ipv4 hex_digit dotted
    is_unique_local is_link_local byte_text digits_value drop_close drop_open private_host_within
loads_config = refl

load_webhook_config-IsChecked_example :
    (url : Url) × (platform.parse_url (trimmed env.url) ≡ some url)
    × IsChecked env url
    × (url.href ≡ config.url)
load_webhook_config-IsChecked_example =
    load_webhook_config-IsChecked platform env config loads_config

is_private_host-dotted_example : is_private_host (dotted 172 31 0 9) ≡ is_private_ipv4 172 31
is_private_host-dotted_example =
    is_private_host-dotted 172 31 0 9 (omega arith) (omega arith) (omega arith) (omega arith)

-- [::ffff:ac1f:9], which stands for 172.31.0.9
is_private_host-mapped_host_example :
    is_private_host (mapped_host 44063 9) ≡ is_private_ipv4 (44063 / 256) (44063 % 256)
is_private_host-mapped_host_example =
    is_private_host-mapped_host 44063 9 (omega arith) (omega arith)
