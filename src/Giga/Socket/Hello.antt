-- ===== src/Giga/Socket/Hello.antt =====
-- ws_send_hello (ws_client.cpp): the HELLO and its buffer.
use house_panel.Base.{
  ℕ, true, refl, ◌≤◌, ◌<◌, ◌≡◌, Bool, some, ◌++◌, arith, if◌then◌else◌, Bytes, length,
  length-append, codes, if_both,
}
use house_panel.Giga.Memory.{memory_due}
use house_panel.Giga.Socket.{hello_text, Schedule, ws_send_hello}

hello_text-length :
    (firmware panel_id hostname : Bytes) (post_ota : Bool)
    → length hostname < 64
    → length panel_id < 33
    → length firmware ≤ 50
    → (length (hello_text firmware post_ota panel_id hostname) < 256)
      × (0 < length (hello_text firmware post_ota panel_id hostname))
unfolding hello_text
hello_text-length firmware panel_id hostname post_ota h p f =
    let word : Bytes = if post_ota then codes "true" else codes "false" in
    let short : length word ≤ 5 =
      if_both (λ w. length w ≤ 5) post_ota (codes "true") (codes "false") (omega arith)
        (omega arith) in
    let e : Bytes = codes "\",\"hostname\":\"" ++ (hostname ++ codes "\"}") in
    let d : Bytes = codes ",\"panel_id\":\"" ++ (panel_id ++ e) in
    let b : Bytes = codes "\",\"post_ota\":" ++ (word ++ d) in
    let whole : length (hello_text firmware post_ota panel_id hostname) ≤ 250 = omega (
      arith,
      h,
      p,
      f,
      short,
      length-append hostname (codes "\"}"),
      length-append panel_id e,
      length-append word d,
      length-append firmware b,
    ) in
    (omega (arith, whole), omega arith)

-- The HELLO of a panel whose hostname is shorter than 64 bytes, whose identifier is shorter than 33, and
-- whose firmware version is at most 50 bytes long fits the 256 bytes of its buffer: it is sent, and whole; and the next memory frame is due, whatever the clock says.
pub ws_send_hello_fits :
    (d : Schedule) (now : ℕ) (firmware panel_id hostname : Bytes) (post_ota : Bool)
    → length hostname < 64
    → length panel_id < 33
    → length firmware ≤ 50
    → ((ws_send_hello d firmware post_ota panel_id hostname).1
        ≡ some (hello_text firmware post_ota panel_id hostname))
      × (let d' = (ws_send_hello d firmware post_ota panel_id hostname).0 in
          memory_due now d'.last d'.first ≡ true)
unfolding ws_send_hello
ws_send_hello_fits d now firmware panel_id hostname post_ota h p f =
    let l = hello_text-length firmware panel_id hostname post_ota h p f in (ground (arith, l), refl)
