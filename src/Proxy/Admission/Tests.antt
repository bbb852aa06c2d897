-- ===== src/Proxy/Admission/Tests.antt =====
-- An admission of crates/proxy/src/admission.rs at a concrete request.
use quotamiser.Prelude.{ℕ, ◌+◌, String, ◌≡◌, refl, none, some, List, [], ◌∷◌, true, false, ok}
use quotamiser.Prelude.Int.{pos, ◌-ℤ◌, ◌+ℤ◌}
use quotamiser.Admission.Epoch.{Window}
use quotamiser.Admission.Liability.{output_bound, estimate_synchronous, estimate_short}
use quotamiser.Ledger.Core.{pool_counters, adjust_pool}
use quotamiser.Ledger.History.{history}
use quotamiser.Ledger.Reserve.{
  reserve, reserve_body, check_inputs, dedup, sort_keys, check_quota, debit, debit_inputs,
  remaining_of,
}
use quotamiser.Ledger.Tests.{fresh}
use quotamiser.Protocol.Json.{Value, end, field, get, integer}
use quotamiser.Protocol.Request.{CreateRequest}
use quotamiser.Protocol.Request.Refusals.{decimal}
use quotamiser.Protocol.Request.Bodies.{flat_text}
use quotamiser.Proxy.Digest.{digest, fnv1a, hex}
use quotamiser.Proxy.Dispatch.{DispatchPermit}
use quotamiser.Proxy.LedgerHandle.{LedgerHandle, with_ledger}
use quotamiser.Proxy.Admission.{
  CatalogEntry, AdmissionPolicy, Surroundings, admitted, admit, prepare, find_entry, estimate_for,
  complete, count_bodies, count_input,
}
use quotamiser.Proxy.Admission.Laws.{AreCounts, total_of, count_bodies-total}
use quotamiser.Proxy.Admission.Admitted.{IsBacked, admit-IsBacked}

-- Up to 30 tokens out, for a request of five bytes.
abbrev request : CreateRequest
request = record {
  fields = field "model" (Value.string "model") (field "input" (Value.string "hello") end);
  model = "model";
  max_output_tokens = some 30;
}

abbrev catalog : List (String × CatalogEntry)
catalog =
    (
      "model",
      record {
        pool_id = "small";
        spec = record { max_output_tokens = 1000; byte_level_encoding_known = true };
      },
    )
    ∷ []

abbrev policy : AdmissionPolicy
policy = record {
  estimator = record { framing_allowance_per_node = 4 };
  accounting_rev = pos 1;
  required_safety_inputs = [];
  synchronous_max_output_tokens = 50;
  synchronous_max_input_bytes = 100;
  synchronous_max_input_characters = 100;
}

-- A counter that is never asked, and a printer that prints one brace.
abbrev env : Surroundings
env = record {
  counter = λ index body. ok (record { status = 500; text = "" });
  from_str = λ text. none;
  to_vec = λ value. 123 ∷ [];
}

abbrev handle : LedgerHandle
handle = record { ledger = fresh; turns = [] }

-- The reservation that the ledger makes.
abbrev permit : DispatchPermit
permit = record { reservation = 1; body = 123 ∷ []; accounting_rev = pos 1; background = false }

admits : (admit env policy catalog request (pos 5) Window.opened handle).0 ≡ admitted permit
unfolding admit prepare find_entry output_bound estimate_for estimate_synchronous flat_text get
    estimate_short complete with_ledger reserve history reserve_body check_inputs dedup sort_keys
    check_quota debit digest fnv1a hex decimal pool_counters debit_inputs adjust_pool remaining_of
    ◌-ℤ◌ ◌+ℤ◌
admits = refl

admit-IsBacked_example :
    IsBacked env policy catalog request
      (pos 5)
      Window.opened
      handle
      (admit env policy catalog request (pos 5) Window.opened handle).1
      permit
admit-IsBacked_example =
    admit-IsBacked env policy catalog request (pos 5) Window.opened handle admits

-- A counter that answers with ten tokens for each body.
abbrev counting : Surroundings
counting = record env {
  counter = λ index body. ok (record { status = 200; text = "counted" });
  from_str =
      λ text. some (Value.object (field "input_tokens" (Value.number (integer (pos 10))) end));
}

counted_20 : count_bodies counting 0 (Value.null ∷ Value.null ∷ []) 0 ≡ ok 20
unfolding count_bodies count_input get
counted_20 = refl

count_bodies-total_example :
    (counts : List ℕ) × AreCounts counting 0 (Value.null ∷ Value.null ∷ []) counts
    × (20 ≡ 0 + total_of counts)
count_bodies-total_example =
    count_bodies-total counting 0 (Value.null ∷ Value.null ∷ []) 0 20 counted_20
