-- ===== src/Client/Answers.antt =====
-- What becomes of a server request: `process_incoming_value` in crates/sdk/src/client/mod.rs with the
-- handlers of crates/sdk/src/client/server_requests.rs.
use codex_sdk_rs.Prelude.{
  ◌≡◌, refl, ap, subst, ◌∙◌, String, true, none, some, [], ◌∷◌, ◌++◌, ◌⊎◌, inl, inr, Option-cases,
}
use codex_sdk_rs.Protocol.{RequestId, ClientError, Result, ok, err, ok_or}
use codex_sdk_rs.SerdeJson.{SerdeJson}
use codex_sdk_rs.Events.{ServerEvent}
use codex_sdk_rs.Events.Notifications.{NotificationDecoders}
use codex_sdk_rs.Events.ServerRequests.{
  ServerRequestDecoders, ServerRequestEvent, request_id, request_method, Carries,
  parse_server_request, parse_server_request-Carries,
}
use codex_sdk_rs.Client.{Client}
use codex_sdk_rs.Client.Handlers.{Handled, run_handler, handler_payload}
use codex_sdk_rs.Client.Inbound.{after_response, handle_or_publish, process_server_request}
use codex_sdk_rs.Client.HandledBy.{HandledBy, parse_server_request-HandledBy}
use codex_sdk_rs.Client.Waiting.{send_message-open}

module _ {Value Object : Type 0} where
  -- The request, or the unknown request that stands for it if it cannot be decoded.
  parsed-Carries :
      (id : RequestId) (method : String) (params : Value)
      (r : Result (ServerRequestEvent Value Object) (ClientError Value))
      → Carries id method r
      → (request_id (ok_or (ServerRequestEvent.unknown id method params) r) ≡ id)
        × (request_method (ok_or (ServerRequestEvent.unknown id method params) r) ≡ method)
  unfolding request_id request_method
  parsed-Carries id method params (ok r) h = h
  parsed-Carries id method params (err e) h = (refl, refl)

module _ ⦃json : SerdeJson⦄ (notifications : NotificationDecoders json.Value json.Object)
    (requests : ServerRequestDecoders json.Value json.Object) where
  open json use {Value, Object}

  -- The registered handler's result or error is sent.
  abbrev pub IsAnswered :
      RequestId → String → Value → Client Value Object → Client Value Object → Type 0
  IsAnswered id method params c after =
      (request : ServerRequestEvent Value Object) × (handled : Handled Value) × HandledBy requests
        c.server_request_handlers id method params request (some handled)
      × (after ≡ record c {
        outbound = c.outbound ++ handler_payload id handled.response handled.context ∷ [];
      })

  -- The request is published, with its id and its method.
  abbrev pub IsPublished :
      RequestId → String → Value → Client Value Object → Client Value Object → Type 0
  IsPublished id method params c after =
      (request : ServerRequestEvent Value Object) × (request_id request ≡ id)
      × (request_method request ≡ method)
      × HandledBy requests c.server_request_handlers id method params request none
      × (after ≡ record c { events = c.events ++ ServerEvent.server_request request ∷ [] })

  -- While the transport is open, a server request is either answered by one frame for its own id with
  -- what the handler of its method gave for its decoded parameters, or published as one event with its
  -- id and method. It is published if no handler is set for its method, if the method is not in the
  -- table, or if the parameters cannot be decoded. Nothing else of the client changes.
  pub process_server_request-answer :
      (id : RequestId) (method : String) (params : Value) (c : Client Value Object)
      → c.outbound_open ≡ true
      → let after = process_server_request notifications requests id method params c in
        IsAnswered id method params c after ⊎ IsPublished id method params c after
  unfolding process_server_request
  process_server_request-answer id method params c o =
      let r = parse_server_request requests id method params in
      let request = ok_or (ServerRequestEvent.unknown id method params) r in
      let kept =
        parsed-Carries id method params r
          (parse_server_request-Carries requests id method params) in
      let by = parse_server_request-HandledBy requests c.server_request_handlers id method params in
      elim (Option-cases (run_handler c.server_request_handlers request)) [
        | inl e ↦ inr (
          request,
          kept.0,
          kept.1,
          subst (HandledBy requests c.server_request_handlers id method params request) e by,
          ap (λ h. handle_or_publish notifications requests h request c) e,
        )
        | inr (handled, e) ↦ inl (
          request,
          handled,
          subst (HandledBy requests c.server_request_handlers id method params request) e by,
          ap (λ h. handle_or_publish notifications requests h request c) e
              ∙ ap (after_response notifications requests) (send_message-open _ c o)
              ∙ ap
                  (λ i. record c {
                    outbound =
                        c.outbound ++ handler_payload i handled.response handled.context ∷ [];
                  })
                  kept.0,
        )
      ]
