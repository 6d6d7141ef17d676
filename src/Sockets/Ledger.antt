-- ===== src/Sockets/Ledger.antt =====
-- libsrc/libcutils: the sockets that the clients and servers leave open.
use cpp_temp_learn.Prelude.{
  if-both, ℕ, List, [], ◌∷◌, Option, none, some, ◌≡◌, refl, sym, ap, subst, ◌∙◌, ◌⊎◌, inl, inr,
  Bytes, if◌then◌else◌, ◌==◌,
}
use cpp_temp_learn.Sockets.{
  Call, connect, CallReply, done, failed, SocketCalls, keep_or_close, or_close, resolved_address,
  get_flags, set_flags, get_option, select,
}
use cpp_temp_learn.Sockets.Network.{
  AddressInfo, Round, continues, breaks, in_progress, socket_error, toggle, store_flags,
  toggle_nonblock, finish_round, judge_error, judge_select, judge_connect, connect_toggled,
  toggle_opened, try_address, try_addresses, socket_network_client_timeout,
}

module _ {World : Type 0} (os : SocketCalls World) where
  open os use {
    opened, socket, close, invoke, socket_opens, socket_fails, close_closes, invoke_keeps,
  }

  -- On top of what was open before, just the result is open.
  abbrev pub Balanced : List ℕ → World × Option ℕ → Type 0
  Balanced base (w, none) = opened w ≡ base
  Balanced base (w, some fd) = opened w ≡ fd ∷ base

  abbrev pub RoundBalanced : List ℕ → World × Round → Type 0
  RoundBalanced base (w, continues) = opened w ≡ base
  RoundBalanced base (w, breaks r) = Balanced base (w, r)

  module _ (base : List ℕ) where
    -- A socket on top of what was open before.
    abbrev pub Holds : ℕ → World → Type 0
    Holds s w = opened w ≡ s ∷ base

    -- The socket is the result, or it is closed.
    abbrev pub Kept : ℕ → World × Option ℕ → Type 0
    Kept s (w, none) = opened w ≡ base
    Kept s (w, some fd) = (fd ≡ s) × Holds s w

    pub Kept→Balanced : (s : ℕ) (w : World) (r : Option ℕ) → Kept s (w, r) → Balanced base (w, r)
    Kept→Balanced s w none h = h
    Kept→Balanced s w (some fd) (e, h) = h ∙ ap (λ n. n ∷ base) (sym e)

    pub keeps : (s : ℕ) (w : World) (c : Call) → Holds s w → Holds s (invoke w c).0
    keeps s w c h = invoke_keeps w c ∙ h

    keep_or_close-Kept :
        (s : ℕ) (w : World) (r : CallReply) → Holds s w → Kept s (keep_or_close os s w r)
    unfolding keep_or_close
    keep_or_close-Kept s w (done n) h = (refl, h)
    keep_or_close-Kept s w (failed e) h = close_closes w s base h

    pub or_close-Kept : (s : ℕ) (c : Call) (w : World) → Holds s w → Kept s (or_close os s c w)
    unfolding or_close
    or_close-Kept s c w h = keep_or_close-Kept s _ (invoke w c).1 (keeps s w c h)

    store_flags-Kept :
        (s : ℕ) (w : World) (r : CallReply) → Holds s w → Kept s (store_flags os s w r)
    unfolding store_flags
    store_flags-Kept s w (failed e) h = close_closes w s base h
    store_flags-Kept s w (done flags) h = or_close-Kept s (set_flags s (toggle flags)) w h

    toggle_nonblock-Kept : (s : ℕ) (w : World) → Holds s w → Kept s (toggle_nonblock os s w)
    unfolding toggle_nonblock
    toggle_nonblock-Kept s w h =
        store_flags-Kept s _ (invoke w (get_flags s)).1 (keeps s w (get_flags s) h)

    finish_round-Balanced :
        (s : ℕ) (w : World) → Holds s w → RoundBalanced base (finish_round os s w)
    unfolding finish_round
    finish_round-Balanced s w h =
        Kept→Balanced s _ (toggle_nonblock os s w).1 (toggle_nonblock-Kept s w h)

    judge_error-Balanced :
        (s : ℕ) (w : World) (r : CallReply) → Holds s w → RoundBalanced base (judge_error os s w r)
    unfolding judge_error
    judge_error-Balanced s w (failed e) h = close_closes w s base h
    judge_error-Balanced s w (done e) h =
        if-both (RoundBalanced base) (e == 0) _ _ (finish_round-Balanced s w h)
          (close_closes w s base h)

    judge_select-Balanced :
        (s : ℕ) (w : World) (r : CallReply) → Holds s w → RoundBalanced base (judge_select os s w r)
    unfolding judge_select
    judge_select-Balanced s w (failed e) h = close_closes w s base h
    judge_select-Balanced s w (done n) h =
        let c = get_option s socket_error in
        let closed = close_closes w s base h in
        if-both (RoundBalanced base) (n == 0) _ _ closed (
          if-both (RoundBalanced base) (n == 1) _ _
            (judge_error-Balanced s _ (invoke w c).1 (keeps s w c h)) closed)

    judge_connect-Balanced :
        (s timeout : ℕ) (w : World) (r : CallReply)
        → Holds s w
        → RoundBalanced base (judge_connect os s timeout w r)
    unfolding judge_connect
    judge_connect-Balanced s timeout w (done n) h = finish_round-Balanced s w h
    judge_connect-Balanced s timeout w (failed e) h =
        let c = select s (if timeout == 0 then none else some timeout) in
        if-both (RoundBalanced base) (e == in_progress) _ _
          (judge_select-Balanced s _ (invoke w c).1 (keeps s w c h)) (close_closes w s base h)

    connect_toggled-Balanced :
        (s timeout : ℕ) (address : Bytes) (w : World) (r : Option ℕ)
        → Kept s (w, r)
        → RoundBalanced base (connect_toggled os s timeout address w r)
    unfolding connect_toggled
    connect_toggled-Balanced s timeout address w none h = h
    connect_toggled-Balanced s timeout address w (some fd) (e, h) =
        let c = connect s (resolved_address address) in
        judge_connect-Balanced s timeout _ (invoke w c).1 (keeps s w c h)

    toggle_opened-Balanced :
        (timeout : ℕ) (address : Bytes) (w : World) (r : Option ℕ)
        → Balanced base (w, r)
        → RoundBalanced base (toggle_opened os timeout address w r)
    unfolding toggle_opened
    toggle_opened-Balanced timeout address w none h = h
    toggle_opened-Balanced timeout address w (some s) h =
        connect_toggled-Balanced s timeout address _ (toggle_nonblock os s w).1
          (toggle_nonblock-Kept s w h)

    -- What `socket` gives.
    pub socket-Balanced :
        (family type protocol : ℕ) (w : World)
        → opened w ≡ base
        → Balanced base (socket w family type protocol)
    socket-Balanced family type protocol w h = given (socket w family type protocol).1 refl
      where
        given :
            (r : Option ℕ)
            → (socket w family type protocol).1 ≡ r
            → Balanced base ((socket w family type protocol).0, r)
        given none e =
            socket_fails w _ family type protocol
              (ap (λ r. ((socket w family type protocol).0, r)) e)
            ∙ h
        given (some fd) e =
            socket_opens w _ family type protocol fd
              (ap (λ r. ((socket w family type protocol).0, r)) e)
            ∙ ap (◌∷◌ fd) h

    try_address-Balanced :
        (type timeout : ℕ) (a : AddressInfo) (w : World)
        → opened w ≡ base
        → RoundBalanced base (try_address os type timeout a w)
    unfolding try_address
    try_address-Balanced type timeout a w h =
        toggle_opened-Balanced timeout a.address _ (socket w a.family type a.protocol).1
          (socket-Balanced a.family type a.protocol w h)

    Round-cases : (r : Round) → (r ≡ continues) ⊎ ((q : Option ℕ) × (r ≡ breaks q))
    Round-cases continues = inl refl
    Round-cases (breaks q) = inr (q, refl)

    try_goes :
        (type timeout : ℕ) (a : AddressInfo) (rest : List AddressInfo) (w : World)
        → (try_address os type timeout a w).1 ≡ continues
        → try_addresses os type timeout (a ∷ rest) w
          ≡ try_addresses os type timeout rest (try_address os type timeout a w).0
    unfolding try_addresses
    try_goes type timeout a rest w e = rw (e, try_addresses) refl

    try_ends :
        (type timeout : ℕ) (a : AddressInfo) (rest : List AddressInfo) (w : World) (q : Option ℕ)
        → (try_address os type timeout a w).1 ≡ breaks q
        → try_addresses os type timeout (a ∷ rest) w ≡ ((try_address os type timeout a w).0, q)
    unfolding try_addresses
    try_ends type timeout a rest w q e = rw (e, try_addresses) refl

    try_addresses-Balanced :
        (type timeout : ℕ) (addrs : List AddressInfo) (w : World)
        → opened w ≡ base
        → Balanced base (try_addresses os type timeout addrs w)
    try_addresses-Balanced type timeout [] w h = unfold try_addresses in h
    try_addresses-Balanced type timeout (a ∷ rest) w h =
        let (w', r) = try_address os type timeout a w in
        let after = try_address-Balanced type timeout a w h in
        elim (Round-cases r) [
          | inl e ↦ rw (try_goes type timeout a rest w e) (
              try_addresses-Balanced type timeout rest w'
                (subst (λ q. RoundBalanced base (w', q)) e after))
          | inr (q, e) ↦
              rw (try_ends type timeout a rest w q e)
                (subst (λ q. RoundBalanced base (w', q)) e after)
        ]

  -- However `socket_network_client_timeout` ends, the sockets that it opened are closed, but for the
  -- one that it returns.
  pub socket_network_client_timeout-Balanced :
      (getaddrinfo : Bytes → ℕ → ℕ → ℕ × List AddressInfo) (host : Bytes) (port type timeout : ℕ)
      (w : World)
      → Balanced (opened w) (
        (socket_network_client_timeout os getaddrinfo host port type timeout w).0,
        (socket_network_client_timeout os getaddrinfo host port type timeout w).1,
      )
  unfolding socket_network_client_timeout
  socket_network_client_timeout-Balanced getaddrinfo host port type timeout w =
      let (error, addrs) = getaddrinfo host port type in
      if-both (λ (r : World × Option ℕ × ℕ). Balanced (opened w) (r.0, r.1)) (error == 0) _ _
        (try_addresses-Balanced (opened w) type timeout addrs w refl) refl
