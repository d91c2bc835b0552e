-- ===== src/HttpProtocol/Retrieving.antt =====
-- `retrieveRequest` and `retrieveResponse` of http_protocol.cc behind `recvMessage`.
use brickred_server.Base.{ℕ, ◌≤◌, ◌≡◌, true, false, Option, none, some, length, ◌⊎◌}
use brickred_server.HttpProtocol.Message.{Message as HttpMessage}
use brickred_server.HttpProtocol.{
  Status, Impl, reset, take_message, retrieve_request, retrieve_response,
}

-- One of the two calls gives the message and resets the state, and the other one does nothing.
abbrev pub IsRetrieved : ℕ → Impl → Type 0
IsRetrieved max s =
    (m : HttpMessage) × (length m.body ≤ max)
    × (((retrieve_request s ≡ (some m, reset s)) × (retrieve_response s ≡ (none, s)))
        ⊎ ((retrieve_response s ≡ (some m, reset s)) × (retrieve_request s ≡ (none, s))))

abbrev IsTaken : HttpMessage → Impl → Status → Option HttpMessage → Type 0
IsTaken m s st o =
    ((take_message true st o s ≡ (some m, reset s)) × (take_message false st o s ≡ (none, s)))
    ⊎ ((take_message false st o s ≡ (some m, reset s)) × (take_message true st o s ≡ (none, s)))
