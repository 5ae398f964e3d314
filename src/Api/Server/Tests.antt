-- ===== src/Api/Server/Tests.antt =====
-- A server with one session, whose request is answered but whose program is gone.
use p2pnet.Base.{◌≡◌, refl, true, false, ◌&&◌, [], ◌∷◌, ◌⊎◌}
use p2pnet.Api.Server.{Server, handle_receive, use_after_free}
use p2pnet.Api.Server.Sessions.{IsListening, Lives, handle_receive-IsListening}

abbrev one_session : Server
one_session = record { api_sessions = 1 ∷ []; receiving = 1 ∷ []; next_session = 2 }

one_session-IsListening : IsListening one_session
one_session-IsListening t h = h

handle_receive-IsListening_example :
    ((false ≡ true) ⊎ ((true && true) ≡ false)
      → Lives (handle_receive false true true 1 one_session))
    × (false ≡ false
        → (true && true) ≡ true
        → handle_receive false true true 1 one_session ≡ use_after_free)
handle_receive-IsListening_example =
    handle_receive-IsListening false true true 1 one_session one_session-IsListening refl
