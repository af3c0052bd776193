-- ===== src/Http/Messages.antt =====
-- source/http/httpmsg.cpp: the texts of the response codes.
use push1st.Prelude.{codes, Bytes, List, [], ◌∷◌, none, some}
use push1st.Channel.Table.{find}

-- The table; an unordered_map keeps the first of the two entries for "302".
abbrev pub response_codes : List (Bytes × Bytes)
response_codes =
    (codes "100", codes "Continue")
    ∷ (codes "101", codes "Switching Protocols")
    ∷ (codes "102", codes "Processing")
    ∷ (codes "200", codes "OK")
    ∷ (codes "201", codes "Created")
    ∷ (codes "202", codes "Accepted")
    ∷ (codes "203", codes "Non-Authoritative Information")
    ∷ (codes "204", codes "No Content")
    ∷ (codes "205", codes "Reset Content")
    ∷ (codes "206", codes "Partial Content")
    ∷ (codes "207", codes "Multi-Status")
    ∷ (codes "208", codes "Already Reported")
    ∷ (codes "226", codes "IM Used")
    ∷ (codes "300", codes "Multiple Choices")
    ∷ (codes "301", codes "Moved Permanently")
    ∷ (codes "302", codes "Moved Temporarily")
    ∷ (codes "302", codes "Found")
    ∷ (codes "303", codes "See Other")
    ∷ (codes "304", codes "Not Modified")
    ∷ (codes "305", codes "Use Proxy")
    ∷ (codes "306", codes "Reserved")
    ∷ (codes "307", codes "Temporary Redirect")
    ∷ (codes "308", codes "Permanent Redirect")
    ∷ (codes "400", codes "Bad Request")
    ∷ (codes "401", codes "Unauthorized")
    ∷ (codes "402", codes "Payment Required")
    ∷ (codes "403", codes "Forbidden")
    ∷ (codes "404", codes "Not Found")
    ∷ (codes "405", codes "Method Not Allowed")
    ∷ (codes "406", codes "Not Acceptable")
    ∷ (codes "407", codes "Proxy Authentication Required")
    ∷ (codes "408", codes "Request Timeout")
    ∷ (codes "409", codes "Conflict")
    ∷ (codes "410", codes "Gone")
    ∷ (codes "411", codes "Length Required")
    ∷ (codes "412", codes "Precondition Failed")
    ∷ (codes "413", codes "Payload Too Large")
    ∷ (codes "414", codes "URI Too Long")
    ∷ (codes "415", codes "Unsupported Media Type")
    ∷ (codes "416", codes "Range Not Satisfiable")
    ∷ (codes "417", codes "Expectation Failed")
    ∷ (codes "418", codes "I'm a teapot")
    ∷ (codes "419", codes "Authentication Timeout")
    ∷ (codes "422", codes "Unprocessable Entity")
    ∷ (codes "423", codes "Locked")
    ∷ (codes "424", codes "Failed Dependency")
    ∷ (codes "426", codes "Upgrade Required")
    ∷ (codes "428", codes "Precondition Required")
    ∷ (codes "429", codes "Too Many Requests")
    ∷ (codes "431", codes "Request Header Fields Too Large")
    ∷ (codes "449", codes "Retry With")
    ∷ (codes "451", codes "Unavailable For Legal Reasons")
    ∷ (codes "499", codes "Client Closed Request")
    ∷ (codes "500", codes "Internal Server Error")
    ∷ (codes "501", codes "Not Implemented")
    ∷ (codes "502", codes "Bad Gateway")
    ∷ (codes "503", codes "Service Unavailable")
    ∷ (codes "504", codes "Gateway Timeout")
    ∷ (codes "505", codes "HTTP Version Not Supported")
    ∷ (codes "506", codes "Variant Also Negotiates")
    ∷ (codes "507", codes "Insufficient Storage")
    ∷ (codes "508", codes "Loop Detected")
    ∷ (codes "509", codes "Bandwidth Limit Exceeded")
    ∷ (codes "510", codes "Not Extended")
    ∷ (codes "511", codes "Network Authentication Required")
    ∷ (codes "520", codes "Unknown Error")
    ∷ (codes "521", codes "Web Server Is Down")
    ∷ (codes "522", codes "Connection Timed Out")
    ∷ (codes "523", codes "Origin Is Unreachable")
    ∷ (codes "524", codes "A Timeout Occurred")
    ∷ (codes "525", codes "SSL Handshake Failed")
    ∷ (codes "526", codes "Invalid SSL Certificate")
    ∷ []

unfoldable pub get_message : Bytes → Bytes
get_message code = elim (find code response_codes) [
  | none ↦ codes "Unknown HTTP error"
  | some text ↦ text
]
