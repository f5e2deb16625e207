-- ===== src/Tests/Responses.antt =====
-- A response whose body has a NUL, appended to a buffer.
use dserver.Prelude.{digits, decimal, ◌≡◌, ◌++◌, refl, some, [], ◌∷◌, false, arith, codes}
use dserver.Buffer.{Buffer, c_string}
use dserver.Buffer.Contents.{IsValid, contents}
use dserver.Http.Response.{HttpResponse, ok, append_to_buffer}
use dserver.Http.Response.Printing.{printed, append_to_buffer-printed}
use dserver.Tests.Buffers.{held, held-IsValid}

abbrev cut : HttpResponse
cut = record {
  headers = (codes "Server", codes "Dserver") ∷ [];
  status_code = ok;
  status_message = codes "OK";
  close_connection = false;
  body = 65 ∷ 0 ∷ 66 ∷ [];
}

append_to_buffer-printed_example :
    (b' : Buffer) × (append_to_buffer cut held ≡ some b')
    × IsValid b'
    × (contents b' ≡ contents held ++ printed cut)
unfolding c_string digits decimal
append_to_buffer-printed_example =
    append_to_buffer-printed cut held held-IsValid (λ e. omega arith) (omega arith)

-- The size is 3, and one byte of the body follows.
printed_cut :
    printed cut
    ≡ codes
        "HTTP/1.1 200 OK\r\nContent-Length: 3\r\nConnection: Keep-Alive\r\nServer: Dserver\r\n\r\nA"
unfolding c_string digits decimal
printed_cut = refl
