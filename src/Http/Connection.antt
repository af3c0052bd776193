-- ===== src/Http/Connection.antt =====
-- chttpconnection: requests and responses through a socket.
use push1st.Prelude.{
  leb, ◌+◌, ◌-◌, ◌==◌, ◌>>=◌, codes, bytes_eq, if◌then◌else◌, Option, Bytes, Bool, List, [], ◌∷◌,
  none, some, true, false, ℕ, zero, suc, ◌++◌, length,
}
use push1st.Channel.Table.{find}
use push1st.Credentials.Decimal.{decimal}
use push1st.Inet.Socket.{Received, Sent, Transfer, read_no_ssl, write_no_ssl}
use push1st.Http.Messages.{get_message}
use push1st.Http.Headers.{headers_text}
use push1st.Http.Request.{
  Request, Parsed, bad_message, unsupported, no_data, complete, parse_request,
}

abbrev pub emsgsize : ℕ
emsgsize = 90

abbrev pub enodata : ℕ
enodata = 61

abbrev pub ebadmsg : ℕ
ebadmsg = 74

abbrev pub eprotonosupport : ℕ
eprotonosupport = 93

-- The lines that HttpWriteRequest and HttpWriteResponse put behind the first one, where the headers
-- are in the order of the map's iteration.
unfoldable pub header_lines : List (Bytes × Bytes) → Bytes → Bytes
header_lines headers [] = headers_text headers ++ (13 ∷ 10 ∷ [])
header_lines headers (c ∷ body) =
    headers_text ((codes "Content-Length", decimal (length (c ∷ body))) ∷ headers) ++ (13 ∷ 10 ∷ [])

-- The text of HttpWriteRequest, which is sent as a whole.
unfoldable pub request_text : Bytes → Bytes → List (Bytes × Bytes) → Bytes → Bytes
request_text method uri headers body =
    method
    ++ (b' ' ∷ (uri ++ (codes " HTTP/1.1" ++ (13 ∷ 10 ∷ (header_lines headers body ++ body)))))

-- The text of HttpWriteResponse before the body.
unfoldable pub response_head : Bytes → List (Bytes × Bytes) → Bytes → Bytes
response_head code headers body =
    codes "HTTP/1.1 "
    ++ (code ++ (b' ' ∷ (get_message code ++ (13 ∷ 10 ∷ header_lines headers body))))

-- GetValue, and the comparison with the only expectation that is answered.
unfoldable pub expects_continue : List (Bytes × Bytes) → Bool
expects_continue headers = elim (find (codes "expect") headers) [
  | none ↦ false
  | some v ↦ bytes_eq v (codes "100-continue")
]

-- What HttpReadRequest gives: 0 or an errno, and the request where it is 0.
pub record Incoming (K : Type 0) : Type 0 where
  pub code : ℕ
  pub request : Option Request
  pub system : K

module _ {K : Type 0} (receive : K → ℕ → Received × K) (transmit : K → Bytes → Sent × K)
    (errno f : ℕ) where
  -- HttpWriteRequest
  unfoldable pub http_write_request :
      Bytes → Bytes → List (Bytes × Bytes) → Bytes → K → Option (Transfer K)
  http_write_request method uri headers body k =
      write_no_ssl transmit false errno f (request_text method uri headers body) k

  unfoldable pub write_body : Bytes → Transfer K → Option (Transfer K)
  write_body [] t = some t
  write_body (c ∷ body) t =
      if t.code == 0 then write_no_ssl transmit false errno f (c ∷ body) t.system else some t

  -- HttpWriteResponse: the body follows in a call of its own where the head is sent.
  unfoldable pub http_write_response :
      Bytes → List (Bytes × Bytes) → Bytes → K → Option (Transfer K)
  http_write_response code headers body k =
      write_no_ssl transmit false errno f (response_head code headers body) k
      >>= (λ t. write_body body t)

  -- The interim response, whose own result is not looked at further.
  unfoldable pub write_continue : List (Bytes × Bytes) → K → Option K
  write_continue headers k =
      if expects_continue headers
      then http_write_response (codes "100") [] [] k >>= (λ t. some t.system)
      else some k

  -- The rest of the content, in a read that waits.
  unfoldable pub read_content : ℕ → ℕ → ℕ → Request → K → Option (Incoming K)
  read_content max_size arrived n r k =
      if leb (arrived + (n - length r.content)) max_size
      then read_no_ssl receive false errno f (n - length r.content) k >>= (λ t. some (
          if t.code == 0
          then record {
            code = 0;
            request = some (record r { content = r.content ++ t.moved });
            system = t.system;
          }
          else record { code = t.code; request = none; system = t.system }))
      else some (record { code = emsgsize; request = none; system = k })

  -- What HttpReadRequest does with what the parser says of the bytes that arrived first.
  unfoldable pub after_parse : ℕ → ℕ → Parsed → K → Option (Incoming K)
  after_parse max_size arrived bad_message k =
      some (record { code = ebadmsg; request = none; system = k })
  after_parse max_size arrived unsupported k =
      some (record { code = eprotonosupport; request = none; system = k })
  after_parse max_size arrived (complete n r) k =
      some (record { code = 0; request = some r; system = k })
  after_parse max_size arrived (no_data zero r) k =
      some (record { code = enodata; request = none; system = k })
  after_parse max_size arrived (no_data (suc n) r) k =
      write_continue r.headers k >>= (λ k'. read_content max_size arrived (suc n) r k')

  -- HttpReadRequest
  unfoldable pub http_read_request : ℕ → K → Option (Incoming K)
  http_read_request max_size k = read_no_ssl receive true errno f max_size k >>= (λ t.
      if t.code == 0
      then after_parse max_size (length t.moved) (parse_request t.moved) t.system
      else some (record { code = t.code; request = none; system = t.system }))
