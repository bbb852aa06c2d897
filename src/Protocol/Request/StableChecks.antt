-- ===== src/Protocol/Request/StableChecks.antt =====
-- Every check of crates/protocol/src/request.rs takes back its own results.
use quotamiser.Prelude.{String, arith, List}
use quotamiser.Protocol.Request.Checks.{
  string, non_empty_string, boolean, boolean_or_null, number, positive_integer, json_object,
  not_deferred, inline_image_url, one_of, metadata, included, include,
}
use quotamiser.Protocol.Request.Stable.{Stable}
use quotamiser.Protocol.Request.StableParts.{array_of-Stable}

pub string-Stable : Stable string
unfolding string
string-Stable v k p q h = ground arith

pub non_empty_string-Stable : Stable non_empty_string
unfolding non_empty_string
non_empty_string-Stable v k p q h = ground arith

pub boolean-Stable : Stable boolean
unfolding boolean
boolean-Stable v k p q h = ground arith

pub boolean_or_null-Stable : Stable boolean_or_null
unfolding boolean_or_null
boolean_or_null-Stable v k p q h = ground arith

pub number-Stable : Stable number
unfolding number
number-Stable v k p q h = ground arith

pub positive_integer-Stable : Stable positive_integer
unfolding positive_integer
positive_integer-Stable v k p q h = ground arith

pub json_object-Stable : Stable json_object
unfolding json_object
json_object-Stable v k p q h = ground arith

pub not_deferred-Stable : Stable not_deferred
unfolding not_deferred
not_deferred-Stable v k p q h = ground arith

pub inline_image_url-Stable : Stable inline_image_url
unfolding inline_image_url
inline_image_url-Stable v k p q h = ground arith

pub one_of-Stable : (accepted : List String) → Stable (one_of accepted)
unfolding one_of
one_of-Stable accepted v k p q h = ground arith

pub metadata-Stable : Stable metadata
unfolding metadata
metadata-Stable v k p q h = ground arith

pub included-Stable : Stable included
included-Stable v k p q h = ground arith

pub include-Stable : Stable include
unfolding include
include-Stable = array_of-Stable included included-Stable
