-- ===== src/Message/Network.antt =====
-- The cases of `processMsg` for the network: src/processMsg.c 1830-2336.
use avserver.Base.{pos, [], ◌∷◌}
use avserver.Message.Keys.{Key, NetKey, PortKey, WifiKey, PtzKey}
use avserver.Message.Vars.{File, NetField, PtzField, OtherField, ScanField, Num, Txt}
use avserver.Message.Session.{Call, Shown, Note, Session}
use avserver.Message.Row.{Row, plain, plain_txt, num_row, txt_row}

-- Two of the cases show another variable than their own.
unfoldable pub row_net : NetKey → Session → Row
row_net NetKey.e_infrad_stat s =
    Row.num
      (record (plain (Num.other OtherField.infrad_stat) File.infrared (Key.net NetKey.e_infrad_stat)
        s) { calls = λ v. Call.set_infradstatus v ∷ [] })
row_net NetKey.e_net_dhcpflag s =
    Row.num (record (plain (Num.net NetField.dhcpflag) File.net (Key.net NetKey.e_net_dhcpflag) s) {
      shown = s.numbers (Num.other OtherField.infrad_stat);
    })
row_net NetKey.e_net_ip s =
    Row.txt (record (plain_txt Txt.ip File.net (Key.net NetKey.e_net_ip) s) { notes = Note.net })
row_net NetKey.e_net_netmask s =
    Row.txt (record (plain_txt Txt.netmask File.net (Key.net NetKey.e_net_netmask) s) {
      calls = λ v. Call.net_set_netmask v ∷ [];
    })
row_net NetKey.e_net_gateway s = txt_row Txt.gateway File.net (Key.net NetKey.e_net_gateway) s
row_net NetKey.e_net_dnsstat s =
    num_row (Num.net NetField.dnsstat) File.net (Key.net NetKey.e_net_dnsstat) s
row_net NetKey.e_net_fdnsip s = txt_row Txt.fdnsip File.net (Key.net NetKey.e_net_fdnsip) s
row_net NetKey.e_net_sdnsip s = txt_row Txt.sdnsip File.net (Key.net NetKey.e_net_sdnsip) s

unfoldable pub row_port : PortKey → Session → Row
row_port PortKey.e_net_protocols s =
    Row.fixed (Key.port PortKey.e_net_protocols) (Shown.number (pos 0))
row_port PortKey.e_net_cardname s = Row.fixed (Key.port PortKey.e_net_cardname) (Shown.text "eth0")
row_port PortKey.e_net_nettype s =
    Row.num (record (plain (Num.net NetField.nettype) File.net (Key.port PortKey.e_net_nettype) s) {
      shown = s.numbers (Num.net NetField.dnsstat);
    })
row_port PortKey.e_port_httpport s =
    Row.num
      (record (plain (Num.net NetField.httpport) File.port (Key.port PortKey.e_port_httpport) s) {
        calls = λ v. Call.set_httpport v ∷ [];
      })
row_port PortKey.e_port_rtspport s =
    num_row (Num.net NetField.rtspport) File.port (Key.port PortKey.e_port_rtspport) s
row_port PortKey.e_upnp_upmenable s =
    num_row (Num.net NetField.upm_enable) File.upnp (Key.port PortKey.e_upnp_upmenable) s
row_port PortKey.e_ddns_d3thenable s =
    num_row (Num.net NetField.d3th_enable) File.ddns (Key.port PortKey.e_ddns_d3thenable) s
row_port PortKey.e_ddns_d3thservice s =
    num_row (Num.net NetField.d3th_service) File.ddns (Key.port PortKey.e_ddns_d3thservice) s
row_port PortKey.e_ddns_d3thuname s =
    txt_row Txt.d3th_uname File.ddns (Key.port PortKey.e_ddns_d3thuname) s
row_port PortKey.e_ddns_d3thpasswd s =
    txt_row Txt.d3th_passwd File.ddns (Key.port PortKey.e_ddns_d3thpasswd) s
row_port PortKey.e_ddns_domain s =
    txt_row Txt.d3th_domain File.ddns (Key.port PortKey.e_ddns_domain) s

-- What the search for networks found is only shown.
unfoldable pub row_wifi : WifiKey → Session → Row
row_wifi WifiKey.e_wf_enable s =
    num_row (Num.net NetField.wf_enable) File.wf (Key.wifi WifiKey.e_wf_enable) s
row_wifi WifiKey.e_wf_auth s =
    num_row (Num.net NetField.wf_auth) File.wf (Key.wifi WifiKey.e_wf_auth) s
row_wifi WifiKey.e_wf_enc s =
    num_row (Num.net NetField.wf_enc) File.wf (Key.wifi WifiKey.e_wf_enc) s
row_wifi WifiKey.e_wf_mode s =
    num_row (Num.net NetField.wf_mode) File.wf (Key.wifi WifiKey.e_wf_mode) s
row_wifi WifiKey.e_wf_ssid s = txt_row Txt.wf_ssid File.wf (Key.wifi WifiKey.e_wf_ssid) s
row_wifi WifiKey.e_wf_key s = txt_row Txt.wf_key File.wf (Key.wifi WifiKey.e_wf_key) s
row_wifi WifiKey.e_wfsearch_channel s =
    Row.fixed (Key.wifi WifiKey.e_wfsearch_channel)
      (Shown.number (s.numbers (Num.scan s.index ScanField.wchannel)))
row_wifi WifiKey.e_wfsearch_rssi s =
    Row.fixed (Key.wifi WifiKey.e_wfsearch_rssi)
      (Shown.number (s.numbers (Num.scan s.index ScanField.wrssi)))
row_wifi WifiKey.e_wfsearch_enc s =
    Row.fixed (Key.wifi WifiKey.e_wfsearch_enc)
      (Shown.number (s.numbers (Num.scan s.index ScanField.wenc)))
row_wifi WifiKey.e_wfsearch_auth s =
    Row.fixed (Key.wifi WifiKey.e_wfsearch_auth)
      (Shown.number (s.numbers (Num.scan s.index ScanField.wauth)))
row_wifi WifiKey.e_wfsearch_net s =
    Row.fixed (Key.wifi WifiKey.e_wfsearch_net)
      (Shown.number (s.numbers (Num.scan s.index ScanField.wnet)))
row_wifi WifiKey.e_wfsearch_essid s =
    Row.fixed (Key.wifi WifiKey.e_wfsearch_essid) (Shown.text (s.texts (Txt.wessid s.index)))

unfoldable pub row_ptz : PtzKey → Session → Row
row_ptz PtzKey.e_ptz_protocal s =
    num_row (Num.ptz PtzField.protocal) File.ptzcom (Key.ptz PtzKey.e_ptz_protocal) s
row_ptz PtzKey.e_ptz_address s =
    num_row (Num.ptz PtzField.address) File.ptzcom (Key.ptz PtzKey.e_ptz_address) s
row_ptz PtzKey.e_ptz_baud s =
    num_row (Num.ptz PtzField.baud) File.ptzcom (Key.ptz PtzKey.e_ptz_baud) s
row_ptz PtzKey.e_ptz_databit s =
    num_row (Num.ptz PtzField.databit) File.ptzcom (Key.ptz PtzKey.e_ptz_databit) s
row_ptz PtzKey.e_ptz_stopbit s =
    num_row (Num.ptz PtzField.stopbit) File.ptzcom (Key.ptz PtzKey.e_ptz_stopbit) s
row_ptz PtzKey.e_ptz_check s =
    num_row (Num.ptz PtzField.check) File.ptzcom (Key.ptz PtzKey.e_ptz_check) s
