-- ===== src/Node/Interface/Tests.antt =====
-- A node's interface, and a file with another section and one peer.
use vpn_management_panel.Prelude.{ℕ, zero, suc, String}
use vpn_management_panel.Node.Interface.{InterfaceConfig}

abbrev str_of : ℕ → String
str_of zero = "0"
str_of (suc n) = "51820"

abbrev tunnel : InterfaceConfig
tunnel = record {
  private_key = "cHJpdmF0ZQ==";
  address = "10.8.0.1/24";
  listen_port = 51820;
  jc = 4;
  jmin = 40;
  jmax = 70;
  s1 = 0;
  s2 = 0;
  s3 = 0;
  s4 = 0;
  h1 = "1";
  h2 = "2";
  h3 = "3";
  h4 = "4";
  i1 = "";
  i2 = "";
  i3 = "";
  i4 = "";
  i5 = "";
  post_up = "iptables -A";
  post_down = "";
}

abbrev old_file : String
old_file = "[Interface]\nJc = 3\n\n[Peer]\nPublicKey = cGhvbmU=\n"
