-- ===== src/Kerberos/Client/Login.antt =====
-- A client with the right password is known to the service in the end, and knows the service.
use auth_lab.Prelude.{
  ℕ, ◌+◌, ◌≤◌, ◌≡◌, refl, sym, ap, ◌∙◌, subst, String, true, false, none, some, [], arith, ltb,
  if◌then◌else◌, eq_refl,
}
use Prim.Native.String.{◌++◌}
use auth_lab.Prelude.Int.{ℤ, pos, abs_diff}
use auth_lab.Prelude.Result.{ok}
use auth_lab.Dict.{get, set}
use auth_lab.Dict.Laws.{get-set}
use auth_lab.Kerberos.{
  EncryptedData, Ticket, EncTicketPart, echo, Env, OpensSealed, encrypt, open_ticket,
}
use auth_lab.Kerberos.Kdc.{Principal, full_name, issue_tgt, tgt_part, issue_ticket, service_part}
use auth_lab.Kerberos.Service.{
  KerberizedService, AuthenticatedClient, open_request, ap_req, ap_rep, authenticated, purge_cache,
}
use auth_lab.Kerberos.Kdc.Issued.{tgs_req-ok}
use auth_lab.Kerberos.Service.Replay.{ap_req-first, purge_cache-nil}
use auth_lab.Kerberos.Service.Opened.{check_ticket-opens, check_authenticator-opens}
use auth_lab.Kerberos.Client.{
  CachedTicket, KerberosClient, drawn, kinit, make_authenticator, request_ticket, fresh_ticket,
  get_service_ticket, cached_or_fresh, is_echo, proves, send, build_ap_req, verify_ap_rep,
}
use auth_lab.Kerberos.Client.Replies.{
  tgt_of, after_kinit, ticket_of, auth_of, decrypt-encrypt, kinit_with-ok, read_reply-issue_ticket,
  open_ticket-encrypt, open_authenticator-make, check_tgs-ok,
}

-- A client, its principal and the principal of a service, whose clocks agree.
pub record IsReady (env : Env) (password service_name : String) (c : KerberosClient)
    (p q : Principal) (s : KerberizedService) : Type 0 where
  pub known : get c.kdc.principals c.principal ≡ some p
  pub named : p.name ≡ c.principal
  pub at_home : p.realm ≡ c.realm
  pub careful : p.require_preauth ≡ true
  pub keyed : p.key ≡ env.string_to_key password (c.realm ++ c.principal)
  pub no_ticket : get c.service_tickets service_name ≡ none
  pub service_known : get c.kdc.principals service_name ≡ some q
  pub service_named : s.name ≡ service_name
  pub service_keyed : s.key ≡ q.key
  pub clocks_agree : abs_diff c.kdc.now (pos c.now) ≤ c.kdc.clock_skew
  pub service_agrees : abs_diff s.now (pos c.now) ≤ s.clock_skew
  pub in_time : c.now ≤ c.kdc.now + c.kdc.ticket_lifetime
  pub service_in_time : s.now ≤ c.kdc.now + c.kdc.ticket_lifetime
  pub begun : c.kdc.now ≤ s.now + s.clock_skew
  pub none_seen : s.replay_cache ≡ []

-- The service ticket that a client asks for once it has logged in, and the client that has it.
tgt_claims : Env → Principal → KerberosClient → EncTicketPart
tgt_claims env p c = tgt_part p (env.random_key c.kdc.draws) c.kdc

ticket_claims : Env → Principal → KerberosClient → EncTicketPart
ticket_claims env p c =
    service_part (tgt_claims env p (drawn c))
      (env.random_key (drawn (drawn (after_kinit env p c))).kdc.draws)
      (drawn (drawn (after_kinit env p c))).kdc

got : Env → String → Principal → Principal → KerberosClient → CachedTicket
unfolding ticket_of
got env service_name p q c =
    ticket_of env (tgt_claims env p (drawn c)) service_name q
      (drawn (drawn (after_kinit env p c))).kdc

after_request : Env → String → Principal → Principal → KerberosClient → KerberosClient
after_request env service_name p q c =
    let c1 = drawn (drawn (after_kinit env p c)) in
    record c1 {
      kdc = (issue_ticket env (tgt_claims env p (drawn c)) service_name q c1.kdc).1;
      service_tickets = set c1.service_tickets service_name (got env service_name p q c);
    }

module _ (env : Env) (opens : OpensSealed env) where
  request_ticket-ok :
      (password service_name : String) (c : KerberosClient) (p q : Principal)
      (s : KerberizedService)
      → IsReady env password service_name c p q s
      → request_ticket env service_name (tgt_of env p (drawn c).kdc) (after_kinit env p c)
        ≡ (ok (got env service_name p q c), after_request env service_name p q c)
  unfolding tgt_of after_kinit request_ticket after_request got tgt_claims issue_tgt
  request_ticket-ok password service_name c p q s ready =
      let c1 = after_kinit env p c in
      let k = (drawn (drawn c1)).kdc in
      let part = tgt_claims env p (drawn c) in
      let checked =
        check_tgs-ok env opens part (tgt_of env p (drawn c).kdc).ticket service_name q k c1 refl
          (open_ticket-encrypt env opens c.kdc.krbtgt_key part 1 (c.kdc.draws + 1 + 1))
          (omega arith)
          (ap (λ x. x ++ ("@" ++ p.realm)) ready.named
            ∙ ap (λ x. c.principal ++ ("@" ++ x)) ready.at_home)
          ready.clocks_agree ready.service_known in
      rw
        (
          tgs_req-ok env (tgt_of env p (drawn c).kdc).ticket
              (make_authenticator env (env.random_key (c.kdc.draws + 1)) c1) service_name k part q
              checked,
          read_reply-issue_ticket env opens part service_name q k,
        )
        refl

  fresh_ticket-ok :
      (password service_name : String) (c : KerberosClient) (p q : Principal)
      (s : KerberizedService)
      → IsReady env password service_name c p q s
      → fresh_ticket env service_name (after_kinit env p c)
        ≡ (ok (got env service_name p q c), after_request env service_name p q c)
  unfolding fresh_ticket after_kinit tgt_of
  fresh_ticket-ok password service_name c p q s ready =
      let in_time : ltb (c.kdc.now + c.kdc.ticket_lifetime) c.now ≡ false =
        ground (arith, ready.in_time) in
      rw in_time (request_ticket-ok password service_name c p q s ready)

  get_service_ticket-ok :
      (password service_name : String) (c : KerberosClient) (p q : Principal)
      (s : KerberizedService)
      → IsReady env password service_name c p q s
      → get_service_ticket env service_name (after_kinit env p c)
        ≡ (ok (got env service_name p q c), after_request env service_name p q c)
  unfolding get_service_ticket cached_or_fresh after_kinit
  get_service_ticket-ok password service_name c p q s ready =
      ap (λ t. cached_or_fresh env service_name t (after_kinit env p c)) ready.no_ticket
      ∙ fresh_ticket-ok password service_name c p q s ready

  build_ap_req-ok :
      (password service_name : String) (c : KerberosClient) (p q : Principal)
      (s : KerberizedService)
      → IsReady env password service_name c p q s
      → build_ap_req env service_name (after_kinit env p c) ≡ (
        ok (
          (got env service_name p q c).ticket,
          make_authenticator env
              (got env service_name p q c).session_key
              (after_request env service_name p q c),
        ),
        drawn (drawn (after_request env service_name p q c)),
      )
  unfolding build_ap_req send
  build_ap_req-ok password service_name c p q s ready =
      ap (λ x. send env x.0 x.1) (get_service_ticket-ok password service_name c p q s ready)

  kinit-ok :
      (password service_name : String) (c : KerberosClient) (p q : Principal)
      (s : KerberizedService)
      → IsReady env password service_name c p q s
      → kinit env password c ≡ (ok (tgt_of env p (drawn c).kdc), after_kinit env p c)
  unfolding kinit
  kinit-ok password service_name c p q s ready =
      rw (← ready.keyed) (kinit_with-ok env opens p c ready.known ready.careful ready.clocks_agree)

  -- The service opens what the client sends.
  open_request-got :
      (password service_name : String) (c : KerberosClient) (p q : Principal)
      (s : KerberizedService)
      → IsReady env password service_name c p q s
      → open_request env
          (got env service_name p q c).ticket
          (make_authenticator env
            (got env service_name p q c).session_key
            (after_request env service_name p q c))
          s
        ≡ ok (ticket_claims env p c, auth_of env (after_request env service_name p q c))
  unfolding open_request got ticket_of issue_ticket ticket_claims after_kinit issue_tgt tgt_claims
      after_request auth_of
  open_request-got password service_name c p q s ready =
      let part = ticket_claims env p c in
      let c2 = after_request env service_name p q c in
      let sealed = make_authenticator env part.session_key c2 in
      let alive : s.now ≤ part.end_time = ground (arith, ready.service_in_time) in
      let client : c.principal ++ ("@" ++ c.realm) ≡ p.name ++ ("@" ++ p.realm) =
        cc (ready.named, ready.at_home) in
      let opened =
        check_ticket-opens env (got env service_name p q c).ticket s part (sym ready.service_named)
          (subst (λ key. open_ticket env key (got env service_name p q c).ticket.enc_part ≡ ok part)
            (sym ready.service_keyed)
            (open_ticket-encrypt env opens q.key part q.kvno (c.kdc.draws + 1 + 3 + 1 + 1 + 1)))
          alive ready.begun in
      let read =
        check_authenticator-opens env part sealed s (auth_of env c2)
          (open_authenticator-make env opens part.session_key c2) client ready.service_agrees in
      rw (opened, read) refl

  -- The client knows the answer of the service.
  verify_ap_rep-got :
      (service_name : String) (c : KerberosClient) (p q : Principal) (n m : ℤ) (draw : ℕ)
      → verify_ap_rep env service_name
          (encrypt env (got env service_name p q c).session_key (echo n m) 1 draw)
          (drawn (drawn (after_request env service_name p q c)))
        ≡ true
  unfolding after_request verify_ap_rep proves
  verify_ap_rep-got service_name c p q n m draw =
      let cached = got env service_name p q c in
      let tickets = (drawn (drawn (after_kinit env p c))).service_tickets in
      let found : get (set tickets service_name cached) service_name ≡ some cached =
        get-set tickets service_name cached service_name
        ∙ ap (λ b. if b then some cached else get tickets service_name) (eq_refl service_name) in
      ap (proves env (encrypt env cached.session_key (echo n m) 1 draw)) found
      ∙ ap is_echo (decrypt-encrypt env opens cached.session_key (echo n m) 1 draw)

-- A client that logs in with its password, asks for a ticket of a service and sends the service
-- what it has, is accepted under the name and with the groups that the KDC has of it, and the
-- answer that it asked for convinces it. The KDC has both principals, under their own names and
-- with their own keys, and requires preauthentication of the client's; the client is of the
-- principal's realm and has no ticket of the service in its cache; the replay cache of the
-- service is empty; the clocks of the KDC and of the service are within the allowed skew of the
-- client's, the tickets live until the client and the service read them, and by the clock of the
-- service they have begun; what a key seals, it opens.
pub login :
    (env : Env) (password service_name : String) (c : KerberosClient) (p q : Principal)
    (s : KerberizedService)
    → OpensSealed env
    → IsReady env password service_name c p q s
    → (ticket : Ticket) × (sealed : EncryptedData) × (a : AuthenticatedClient)
      × (rep : EncryptedData) × ((build_ap_req env service_name (kinit env password c).1).0
          ≡ ok (ticket, sealed))
      × ((ap_req env ticket sealed true s).0 ≡ ok (a, some rep))
      × (a.name ≡ full_name p)
      × (a.groups ≡ p.groups)
      × (verify_ap_rep env service_name rep
            (build_ap_req env service_name (kinit env password c).1).1
          ≡ true)
unfolding ticket_claims tgt_claims got ticket_of ap_rep
login env password service_name c p q s opens ready =
    let c2 = after_request env service_name p q c in
    let cached = got env service_name p q c in
    let begun = ap (λ x. x.1) (kinit-ok env opens password service_name c p q s ready) in
    let sent =
      ap (build_ap_req env service_name) begun
      ∙ build_ap_req-ok env opens password service_name c p q s ready in
    let empty : purge_cache s.now s.replay_cache ≡ [] =
      subst (λ cache. purge_cache s.now cache ≡ []) (sym ready.none_seen) (purge_cache-nil s.now) in
    let served =
      ap_req-first env s cached.ticket (make_authenticator env cached.session_key c2) true
        (open_request-got env opens password service_name c p q s ready) empty in
    (
      cached.ticket,
      make_authenticator env cached.session_key c2,
      authenticated (ticket_claims env p c),
      encrypt env cached.session_key
          (echo (auth_of env c2).timestamp (auth_of env c2).sequence_number) 1 s.draws,
      ap (λ x. x.0) sent,
      ap (λ x. x.0) served,
      refl,
      refl,
      ap
            (λ x.
              verify_ap_rep env service_name
                (encrypt env cached.session_key
                  (echo (auth_of env c2).timestamp (auth_of env c2).sequence_number) 1 s.draws)
                x.1)
            sent
          ∙ verify_ap_rep-got env opens service_name c p q (auth_of env c2).timestamp
              (auth_of env c2).sequence_number s.draws,
    )
