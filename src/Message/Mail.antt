-- ===== src/Message/Mail.antt =====
-- The cases of `processMsg` for the FTP and SMTP servers: src/processMsg.c
-- 2792-2987.
use avserver.Message.Keys.{Key, FtpKey, SmtpKey}
use avserver.Message.Vars.{File, OtherField, Num, Txt}
use avserver.Message.Session.{Session}
use avserver.Message.Row.{Row, num_row, txt_row}

unfoldable pub row_ftp : FtpKey → Session → Row
row_ftp FtpKey.e_ft_port s =
    num_row (Num.other OtherField.ft_port) File.ftp (Key.ftp FtpKey.e_ft_port) s
row_ftp FtpKey.e_ft_mode s =
    num_row (Num.other OtherField.ft_mode) File.ftp (Key.ftp FtpKey.e_ft_mode) s
row_ftp FtpKey.e_ft_serverip s = txt_row Txt.ft_serverip File.ftp (Key.ftp FtpKey.e_ft_serverip) s
row_ftp FtpKey.e_ft_username s = txt_row Txt.ft_username File.ftp (Key.ftp FtpKey.e_ft_username) s
row_ftp FtpKey.e_ft_password s = txt_row Txt.ft_password File.ftp (Key.ftp FtpKey.e_ft_password) s
row_ftp FtpKey.e_ft_dirname s = txt_row Txt.ft_dirname File.ftp (Key.ftp FtpKey.e_ft_dirname) s

unfoldable pub row_smtp : SmtpKey → Session → Row
row_smtp SmtpKey.e_smtp_port s =
    num_row (Num.other OtherField.smtp_port) File.smtp (Key.smtp SmtpKey.e_smtp_port) s
row_smtp SmtpKey.e_smtp_sslflag s =
    num_row (Num.other OtherField.ssl_flag) File.smtp (Key.smtp SmtpKey.e_smtp_sslflag) s
row_smtp SmtpKey.e_smtp_logintype s =
    num_row (Num.other OtherField.logintype) File.smtp (Key.smtp SmtpKey.e_smtp_logintype) s
row_smtp SmtpKey.e_smtp_serverip s =
    txt_row Txt.smtp_serverip File.smtp (Key.smtp SmtpKey.e_smtp_serverip) s
row_smtp SmtpKey.e_smtp_username s =
    txt_row Txt.smtp_username File.smtp (Key.smtp SmtpKey.e_smtp_username) s
row_smtp SmtpKey.e_smtp_password s =
    txt_row Txt.smtp_password File.smtp (Key.smtp SmtpKey.e_smtp_password) s
row_smtp SmtpKey.e_smtp_from s = txt_row Txt.smtp_from File.smtp (Key.smtp SmtpKey.e_smtp_from) s
row_smtp SmtpKey.e_smtp_to s = txt_row Txt.smtp_to File.smtp (Key.smtp SmtpKey.e_smtp_to) s
row_smtp SmtpKey.e_smtp_subject s =
    txt_row Txt.smtp_subject File.smtp (Key.smtp SmtpKey.e_smtp_subject) s
row_smtp SmtpKey.e_smtp_text s = txt_row Txt.smtp_text File.smtp (Key.smtp SmtpKey.e_smtp_text) s
