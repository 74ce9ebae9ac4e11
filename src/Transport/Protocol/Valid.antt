-- ===== src/Transport/Protocol/Valid.antt =====
-- The frames of the server pass the validation, and what the errors of frames say.
use sourcevcode_orchestrator.Prelude.{
  String, List, [], ◌∷◌, none, Bool, true, false, not, ◌&&◌, ◌≡◌, ap, refl, arith, if_cases, ◌==◌,
  any, all, trim, trim_left, trim_right, is_space, is_empty, lower_is, upper_is,
}
use sourcevcode_orchestrator.Prelude.Int.{pos, ltb_ℤ}
use sourcevcode_orchestrator.Domain.Json.{Fields}
use sourcevcode_orchestrator.Transport.Protocol.{
  Frame, ErrorDefinition, error_taxonomy, definition_of, new_protocol_frame_error,
  request_frame_types, server_frame_types, is_type, validate_envelope, ack_envelope, error_envelope,
}

abbrev pub Passes : (String → String) → Frame → Type 0
Passes lower f = validate_envelope lower f ≡ none

abbrev pub is_heartbeat : Frame → Bool
is_heartbeat f = lower_is (trim f.type) "heartbeat"

pub named_request :
    (lower : String → String) (f : Frame)
    → Passes lower f
    → is_heartbeat f ≡ false
    → (trim f.request_id == "") ≡ false
unfolding validate_envelope
named_request lower f h k = ground (arith, h, k)

from_server :
    (lower : String → String) (f : Frame)
    → is_type server_frame_types f.type ≡ true
    → is_type request_frame_types f.type ≡ false
    → (trim f.request_id == "") ≡ false
    → f.timeout_ms ≡ pos 0
    → Passes lower f
unfolding validate_envelope
from_server lower f s r n t = ground (arith, s, r, n, ap (λ i. ltb_ℤ i (pos 0)) t)

pub ack_envelope-Passes :
    (lower : String → String) (request : Frame) (mode : String)
    → (trim request.request_id == "") ≡ false
    → Passes lower (ack_envelope request mode)
unfolding ack_envelope server_frame_types request_frame_types trim trim_left trim_right is_space
    is_empty lower_is
ack_envelope-Passes lower request mode n =
    from_server lower (ack_envelope request mode) refl refl n refl

pub error_envelope-Passes :
    (lower : String → String) (request : Frame) (code message : String) (details : Fields)
    → (trim request.request_id == "") ≡ false
    → Passes lower (error_envelope request code message details)
unfolding error_envelope server_frame_types request_frame_types trim trim_left trim_right is_space
    is_empty lower_is
error_envelope-Passes lower request code message details n =
    from_server lower (error_envelope request code message details) refl refl n refl

abbrev same_flag : Bool → Bool → Bool
same_flag true b = b
same_flag false b = not b

-- The taxonomy has the code with this category and this answer to whether it may be retried.
abbrev pub is_listed : String → String → Bool → Bool
is_listed code category retryable =
    any
      (λ (d : String × ErrorDefinition).
        d.0 == code && d.1.category == category && same_flag d.1.retryable retryable)
      error_taxonomy

abbrev is_sound : String × ErrorDefinition → Bool
is_sound d = is_listed d.0 d.1.category d.1.retryable && not (trim d.1.message == "")

all-definition_of :
    (code : String) (l : List (String × ErrorDefinition))
    → all is_sound l ≡ true
    → is_sound (definition_of code []) ≡ true
    → is_sound (definition_of code l) ≡ true
unfolding definition_of
all-definition_of code [] h k = k
all-definition_of code (d ∷ l) h k =
    if_cases (λ (x : String × ErrorDefinition). is_sound x ≡ true) (upper_is code d.0)
      (λ _. ground (arith, h)) (λ _. all-definition_of code l (ground (arith, h)) k)

definition_of-is_sound : (code : String) → is_sound (definition_of code error_taxonomy) ≡ true
unfolding error_taxonomy trim trim_left trim_right is_space is_empty definition_of
definition_of-is_sound code = all-definition_of code error_taxonomy refl refl

split : (a b : Bool) → (a && not b) ≡ true → (a ≡ true) × (b ≡ false)
split a b h = ground (arith, h)

-- Whatever code and message an error is made of, its code stands in the taxonomy with the error's category and
-- its answer to whether the request may be retried, and its message is not blank.
pub new_protocol_frame_error-known :
    (code message : String) (details : Fields)
    → let p = new_protocol_frame_error code message details in
      (is_listed p.code p.category p.retryable ≡ true) × ((trim p.message == "") ≡ false)
unfolding new_protocol_frame_error
new_protocol_frame_error-known code message details =
    let d = definition_of (trim code) error_taxonomy in
    let (listed, worded) =
      split (is_listed d.0 d.1.category d.1.retryable) (trim d.1.message == "")
        (definition_of-is_sound (trim code)) in
    (listed, if_cases (λ t. (trim t == "") ≡ false) (trim message == "") (λ _. worded) (λ f. f))
