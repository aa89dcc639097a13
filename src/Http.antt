-- ===== src/Http.antt =====
-- What a handler does to Go's http.ResponseWriter, as the list of its calls, and the HttpHandle of
-- pkg/httpadapter/handle.go.
use gqueue.Common.{ℕ, String, List, [], ◌∷◌}

pub data WriterCall : Type 0 where
  set_header : String → String → WriterCall
  write_header : ℕ → WriterCall
  write : String → WriterCall

-- http.Error; the newline behind the message is left out.
abbrev pub http_error : String → ℕ → List WriterCall
http_error msg code =
    set_header "Content-Type" "text/plain; charset=utf-8"
    ∷ set_header "X-Content-Type-Options" "nosniff"
    ∷ write_header code
    ∷ write msg
    ∷ []

-- The status that the client sees: that of the first WriteHeader, where nothing was written before
-- it; else 200.
unfoldable pub client_status : List WriterCall → ℕ
client_status [] = 200
client_status (set_header k v ∷ rest) = client_status rest
client_status (write_header code ∷ rest) = code
client_status (write body ∷ rest) = 200
