-- ===== src/Tests/Setting.antt =====
-- Concrete parameters: an environment whose codecs are identities, a node, and times.
use axia_network_v2_magellan.Prelude.{ℕ, ◌+◌, ◌^◌, ◌∷◌, ltb, if◌then◌else◌, arith}
use axia_network_v2_magellan.Prelude.Int.{pos}
use axia_network_v2_magellan.Prelude.Text.{Text, codes}
use axia_network_v2_magellan.Prelude.Result.{Result, ok, err}
use axia_network_v2_magellan.Params.Query.{Env, Time, external}
use axia_network_v2_magellan.Axc.Node.{Node}
use axia_network_v2_magellan.Axc.Writer.Sums.{Adds}

abbrev pub noon : Time
noon = record { sec = pos 1600000000; nsec = 0 }

abbrev pub env : Env
env = record {
  now = noon;
  parse_rfc3339 = λ s. err (external s);
  parse_duration = λ s. ok (pos 1000000000);
  id_from_string = λ s. ok s;
  id_string = λ i. i;
  short_from_string = λ s. ok s;
  parse_bech32 = λ s. err (external s);
  to_short_id = λ b. ok b;
  short_string = λ i. i;
  to_lower = λ s. s;
}

abbrev pub checked_add : ℕ → ℕ → Result Text ℕ
checked_add a b = if ltb (a + b) (2 ^ 64) then ok (a + b) else err (codes "overflow")

abbrev pub node : Node
node = record {
  add64 = checked_add;
  id_string = λ i. i;
  prefix = λ i n. n ∷ i;
  short_string = λ i. i;
  recover_public_key = λ message sig. ok sig;
  key_address = λ key. key;
  format_bech32 = λ a. ok a;
  compute_hash256 = λ b. b;
  to_id = λ b. ok b;
}

pub node-Adds : Adds node
node-Adds a b = ((λ h. ground (arith, h)), (λ h. (codes "overflow", ground (arith, h))))
